-- ===== src/Protocol/Tests.antt =====
-- The protocol of node 1 with one socket and two buffered packets for node 7.
use bsdvr_ns.Base.{All, ◌++◌, ◌+◌, ◌≡◌, refl, Returns, none, some, [], ◌∷◌, arith}
use bsdvr_ns.Base.Map.{find, IsSorted}
use bsdvr_ns.RoutingTable.{active, RoutingTableEntry, new_entry}
use bsdvr_ns.Protocol.{compute_changes}
use bsdvr_ns.Base.Map.{assign}
use bsdvr_ns.ControlPlane.{
  compute_entry, install, settle, is_better_route, at_or_create, refresh_forwarding_table,
  compute_forwarding_table, compute_neighbor, update_distance_vector_table, store_route,
  remove_if_known, remove_fake_routes, remove_fake_at, erase_ips, fake_dsts,
}
use bsdvr_ns.Net.{create_route}
use bsdvr_ns.PacketQueue.{not_forwarded, find_dst, dequeue, dequeue_loop}
use bsdvr_ns.Packet.{
  UpdateHeader, HelloHeader, type_hello, type_update, new_type_header, serialize_type,
  serialize_update, serialize_hello,
}
use bsdvr_ns.ControlPlane.FakeEntries.{entry_at}
use bsdvr_ns.Protocol.{
  Protocol, loopback, find_socket, send_triggered_update_to_neighbor,
  send_triggered_update_changes_to_neighbors,
}
use bsdvr_ns.Protocol.Receive.{send_packet_from_queue, learn_update, recv_update, recv_bsdv}
use bsdvr_ns.Protocol.Buffered.{send_packet_from_queue-never}
use bsdvr_ns.Protocol.Sends.{
  HasSockets, IsSendable, all_sent, introduces, announces_all, having_sent,
  send_triggered_update_to_neighbor_lem, send_triggered_update_changes_to_neighbors_lem,
}
use bsdvr_ns.Protocol.Learn.{learn_update-entry_at}
use bsdvr_ns.PendingReplies.Enqueue.{IsWellFormed}
use bsdvr_ns.Protocol.Replies.{Replied, reply_entry, retransmit_to_neighbor-Replied}
use bsdvr_ns.Protocol.Handlers.{retransmit_to_neighbor, recv_hello, hello_timer_expire}
use bsdvr_ns.Base.{reject}
use bsdvr_ns.Neighbors.{close_neighbor}
use bsdvr_ns.Protocol.Sendable.{Keeps, IsReady}
use bsdvr_ns.Protocol.Denial.{IsOwn, recv_update-fails}
use bsdvr_ns.Protocol.Liveness.{greeted, hello_timer_expire-Returns}
use bsdvr_ns.Protocol.Messages.{recv_bsdv-serialize}
use bsdvr_ns.Protocol.Completion.{Unflushed, recv_update-Returns}
use bsdvr_ns.Samples.{
  node, bytes, bytes_lem, home, world, entry, routes, neighbor, detour_table, some_neighbors,
  careful, careless, queued,
}

send_packet_from_queue-never_example :
    send_packet_from_queue world careless 1000 7 0 active (node careless) ≡ none
unfolding dequeue dequeue_loop
send_packet_from_queue-never_example =
    send_packet_from_queue-never world careless refl refl 1000 7 0 active (node careless)
      (λ x. refl) refl

sockets : HasSockets (node careful)
unfolding find_socket
sockets = (refl, (refl, tt))

send_triggered_update_to_neighbor_lem_example :
    send_triggered_update_to_neighbor world 3 (node careful)
    ≡ some (
        having_sent
          (node careful)
          (all_sent (introduces world (node careful) 3) detour_table.forwarding_table))
send_triggered_update_to_neighbor_lem_example =
    send_triggered_update_to_neighbor_lem world 3 (node careful) sockets

changes-IsSendable : All (IsSendable (node careful)) (7 ∷ 3 ∷ [])
unfolding find find_socket
changes-IsSendable = (refl, (refl, tt))

send_triggered_update_changes_to_neighbors_lem_example :
    send_triggered_update_changes_to_neighbors (7 ∷ 3 ∷ []) (2 ∷ []) (node careful)
    ≡ some (
        having_sent
          (node careful)
          (all_sent (announces_all (node careful) (7 ∷ 3 ∷ []) (2 ∷ [])) some_neighbors.nb))
send_triggered_update_changes_to_neighbors_lem_example =
    send_triggered_update_changes_to_neighbors_lem (7 ∷ 3 ∷ []) (2 ∷ []) (node careful)
      changes-IsSendable

detour_table-IsSorted : IsSorted detour_table.forwarding_table
detour_table-IsSorted = ((omega arith, tt), (tt, tt))

abbrev bad_news : UpdateHeader
bad_news = record { origin = 1; dst = 7; hop_count = 3; binary_state = 0 }

-- The neighbor 2 says that it has lost its route to 7, and its active route to 7 stays.
learn_update-entry_at_example :
    entry_at 2 7
      (learn_update world bad_news 1 2 (node careful)).1.routing_table.distance_vector_table
    ≡ some (entry 0 3 active)
unfolding find
learn_update-entry_at_example =
    learn_update-entry_at world bad_news 1 2 7 (node careful) detour_table-IsSorted

abbrev a_hello : HelloHeader
a_hello = record { origin = 2; dst = 2 }

recv_bsdv-serialize_example :
    (recv_bsdv world careful bytes 3 5
        (serialize_type bytes (new_type_header type_update) (serialize_update bytes bad_news []))
        2
        (node careful)
      ≡ recv_update world careful 3 bad_news 1 2 (node careful))
    × (recv_bsdv world careful bytes 3 5
          (serialize_type bytes (new_type_header type_hello) (serialize_hello bytes a_hello []))
          2
          (node careful)
        ≡ recv_hello world a_hello 1 (node careful))
unfolding find
recv_bsdv-serialize_example =
    recv_bsdv-serialize world careful bytes bytes_lem 3 5 2 (node careful) bad_news a_hello []
      (omega arith) (omega arith) (omega arith) (omega arith) (omega arith) (omega arith)

-- Node 3 has lost its route to 7, which node 1 reaches by way of node 2.
abbrev lost : UpdateHeader
lost = record { origin = 3; dst = 7; hop_count = 9; binary_state = 0 }

no_replies-IsWellFormed : IsWellFormed (node careful).prqueue
no_replies-IsWellFormed = record { distinct = tt; bounded = omega arith; roomy = omega arith }

retransmit_to_neighbor-Replied_example :
    Replied world
      (node careful)
      lost
      (reply_entry (node careful) lost)
      (retransmit_to_neighbor world lost (node careful))
unfolding find find_socket
retransmit_to_neighbor-Replied_example =
    retransmit_to_neighbor-Replied world lost (node careful) refl tt no_replies-IsWellFormed

-- Node 1 with the route to itself that SetIpv4 has made, and a packet for 9.
abbrev awake : Protocol
awake = record (node careful) {
  queue = record { queue = queued careless 10 9 not_forwarded ∷ []; max_len = 2 };
  routing_table = record detour_table {
    forwarding_table =
        detour_table.forwarding_table
        ++ (loopback, record (entry 4 1 active) { iface = world.make_iface loopback 4278190080 })
          ∷ [];
    routes =
        create_route
          (record {
            destination = loopback;
            gateway = loopback;
            source = loopback;
            output_device = 0;
          })
          routes;
  };
}

awake-Keeps : Keeps ((5, home) ∷ []) awake
unfolding find find_socket
awake-Keeps = (
  refl,
  record {
    sends = ((refl, (refl, (refl, tt))), ((refl, tt), ((refl, (refl, tt)), tt)), refl);
    replies = no_replies-IsWellFormed;
    others = refl;
    partners = (refl, tt);
    with_ipv4 = refl;
    with_lo = refl;
    buffer = (omega arith, (refl, tt));
  },
)

-- The neighbor 3 says that it has lost its route to 7.
recv_update-Returns_example :
    Returns
      (Unflushed world careless
        ((5, home) ∷ [])
        (learn_update world lost 1 3 awake).1.routing_table
        awake)
      (recv_update world careless 3 lost 1 3 awake)
unfolding find_socket find_dst learn_update find compute_changes compute_forwarding_table
    compute_neighbor update_distance_vector_table store_route remove_if_known new_entry
    remove_fake_routes remove_fake_at assign erase_ips fake_dsts compute_entry install settle
    is_better_route at_or_create refresh_forwarding_table
recv_update-Returns_example =
    recv_update-Returns world careless ((5, home) ∷ []) 3 lost 1 3 awake refl awake-Keeps refl
      (refl, (refl, (refl, tt)))

-- The timer goes off at node 1 with its neighbors.
hello_timer_expire-Returns_example :
    (q : Protocol) × (hello_timer_expire world (λ k. k + 3) awake
      ≡ some (greeted world ((5, home) ∷ []) (λ k. k + 3) q))
    × Keeps ((5, home) ∷ []) (greeted world ((5, home) ∷ []) (λ k. k + 3) q)
    × (q.nb.nb ≡ reject (close_neighbor world) some_neighbors.nb)
hello_timer_expire-Returns_example =
    hello_timer_expire-Returns world ((5, home) ∷ []) (λ k. k + 3) awake refl awake-Keeps

-- Node 1 with the neighbor 3, which has told it nothing yet but that the loopback address is
-- inactive.
abbrev own_entry : RoutingTableEntry
own_entry = record (entry 4 1 active) { iface = world.make_iface loopback 4278190080 }

abbrev lonely : Protocol
lonely = record awake {
  nb = record some_neighbors { nb = neighbor 3 120 ∷ [] };
  routing_table = record awake.routing_table {
    forwarding_table = (loopback, own_entry) ∷ [];
    distance_vector_table = (3, []) ∷ [];
  };
}

lonely-IsReady : IsReady lonely
unfolding find find_socket
lonely-IsReady = record {
  sends = ((refl, tt), (tt, tt), refl);
  replies = no_replies-IsWellFormed;
  others = refl;
  partners = (refl, tt);
  with_ipv4 = refl;
  with_lo = refl;
  buffer = (omega arith, (refl, tt));
}

abbrev poison : UpdateHeader
poison = record { origin = 3; dst = loopback; hop_count = 1; binary_state = 0 }

poison-IsOwn : IsOwn (learn_update world poison 1 3 lonely).1 own_entry
unfolding learn_update find compute_changes compute_forwarding_table compute_neighbor
    update_distance_vector_table store_route remove_if_known new_entry remove_fake_routes
    remove_fake_at assign erase_ips fake_dsts find_socket
poison-IsOwn = record {
  stands = refl;
  is_active = refl;
  next = refl;
  hops_lem = refl;
  no_socket = refl;
}

recv_update-fails_example : recv_update world careful 3 poison 1 3 lonely ≡ none
unfolding find_socket
recv_update-fails_example =
    recv_update-fails world careful 3 poison 1 3 own_entry lonely lonely-IsReady refl poison-IsOwn
      refl refl refl refl refl
