-- ===== src/Protocol/Handlers.antt =====
-- model/bsdvr.cc: the handlers of RoutingProtocol for hello messages and the hello timer,
-- SendHello, ProcessHello, RecvHello, HelloTimerExpire and RetransmitToNeighbor.
-- Draws from m_uniformRandomVariable are the values of `jitter`.
use bsdvr_ns.Base.{
  ℕ, suc, ◌+◌, ◌-◌, ◌%◌, ◌^◌, Bool, false, not, ◌&&◌, ◌||◌, Option, none, some, [], ◌∷◌, ◌++◌, ◌==◌,
  ltb, if◌then◌else◌, and_then, for_each,
}
use bsdvr_ns.Base.Map.{Map, find, assign}
use bsdvr_ns.Net.{Address, InterfaceAddress, World, cancel_timer, schedule_timer}
use bsdvr_ns.RoutingTable.{
  active, state_eq, RoutingTableEntry, Entries, new_entry, get_next_hop, set_output_device,
  set_next_hop, lookup_route, add_route, update, RoutingTable,
}
use bsdvr_ns.Neighbors.{Neighbors, purge, update_found}
use bsdvr_ns.Neighbors as Nb
use bsdvr_ns.Packet.{UpdateHeader, HelloHeader}
use bsdvr_ns.PendingReplies.{new_pending_reply, PendingReplyEntry}
use bsdvr_ns.PendingReplies as Replies
use bsdvr_ns.ControlPlane.{is_in}
use bsdvr_ns.Protocol.{
  Protocol, hello_message, is_filtered, send_update, send_triggered_update_to_neighbor,
  compute_changes, send_update_on_link_failure, send_update_on_pending_reply_entry_timeout,
}

-- The two callbacks that the constructor registers.
abbrev pub on_link_failure : World → Address → Option Protocol → Option Protocol
on_link_failure w ne s = and_then s (λ p. send_update_on_link_failure w ne p)

abbrev pub on_timeout : PendingReplyEntry → Option Protocol → Option Protocol
on_timeout en s = and_then s (λ p. send_update_on_pending_reply_entry_timeout en p)

-- What an operation of m_nb leaves.
abbrev pub with_neighbors : Neighbors × Option Protocol → Option Protocol
with_neighbors (n, s) = and_then s (λ p. some (record p { nb = n }))

-- m_nb.Purge (): its callbacks see the vector before anything is erased.
unfoldable pub purge_neighbors : World → Protocol → Option Protocol
purge_neighbors w p = with_neighbors (purge w (some (on_link_failure w)) p.nb (some p))

-- m_nb.Update (): the callbacks see the vector with the new neighbor at its end.
unfoldable pub update_neighbor : World → Address → ℕ → Protocol → Option Protocol
update_neighbor w addr expire p =
    let seen : Protocol = elim (update_found w addr expire p.nb.arp p.nb.nb) [
      | some _ ↦ p
      | none ↦ record p { nb = Nb.pushed w addr expire p.nb }
    ] in
    with_neighbors (Nb.update w (some (on_link_failure w)) addr expire p.nb (some seen))

-- One round of the loop of SendHello.
unfoldable pub hello_to : (ℕ → ℕ) → Address × InterfaceAddress → Protocol → Protocol
hello_to jitter (socket, iface) p = record p {
  drawn = suc p.drawn;
  sent =
      p.sent
      ++ record {
        socket = socket;
        message = hello_message (record { origin = iface.local; dst = iface.local });
        ttl = 1;
        receiver = if iface.mask == 4294967295 then 4294967295 else iface.broadcast;
        after = jitter p.drawn;
      }
        ∷ [];
}

unfoldable pub send_hello : World → (ℕ → ℕ) → Protocol → Option Protocol
send_hello w jitter p =
    and_then (purge_neighbors w p) (λ q. some (for_each (hello_to jitter) q.socket_addresses q))

-- The end of HelloTimerExpire.
unfoldable pub restart_htimer : World → ℕ → Protocol → Protocol
restart_htimer w offset p = record p {
  htimer = schedule_timer w (p.hello_interval - offset) (cancel_timer p.htimer);
  last_bcast_time = 0;
}

unfoldable pub hello_timer_expire : World → (ℕ → ℕ) → Protocol → Option Protocol
hello_timer_expire w jitter p =
    if ltb 0 p.last_bcast_time
    then some (restart_htimer w (w.now - p.last_bcast_time) p)
    else and_then (send_hello w jitter p) (λ q. some (restart_htimer w 0 q))

-- `dv = (*dvt)[origin]`, which was inserted where it was missing.
abbrev pub vector_of : Address → RoutingTable → Entries
vector_of origin t = elim (find origin t.distance_vector_table) [ none ↦ [] | some dv ↦ dv ]

abbrev pub set_vector : Address → Entries → RoutingTable → RoutingTable
set_vector origin dv t = record t {
  distance_vector_table = assign origin dv t.distance_vector_table;
}

-- The branch of ProcessHello for a neighbor without a route to itself in its distance vector: first
-- the tables, then the updates.
unfoldable pub meet : World → Address → Address → Protocol → Protocol
meet w origin receiver p =
    let t = p.routing_table in
    let i = w.interface_for_address receiver in
    let (e, h) = new_entry (w.net_device i) origin (w.address_of i) 1 origin false t.routes in
    let (dv, _) = add_route h e (vector_of origin t) in
    (compute_changes w
      (record p { routing_table = set_vector origin dv (record t { routes = h }) })).1

unfoldable pub greet : World → Address → Address → Protocol → Option Protocol
greet w origin receiver p = send_triggered_update_to_neighbor w origin (meet w origin receiver p)

-- The other branch: the entry, a copy that shares its route, is written back.
unfoldable pub refresh_route : World → Address → Address → RoutingTableEntry → Protocol → Protocol
refresh_route w origin receiver e p =
    let t = p.routing_table in
    let i = w.interface_for_address receiver in
    let h = set_next_hop origin e (set_output_device (w.net_device i) e t.routes) in
    let (dv, _) = update h (record e { iface = w.address_of i; hops = 1 }) (vector_of origin t) in
    record p { routing_table = set_vector origin dv (record t { routes = h }) }

-- ProcessHello after the neighbor's update.
unfoldable pub learn_neighbor : World → Address → Address → Protocol → Option Protocol
learn_neighbor w origin receiver p = elim (lookup_route origin (vector_of origin p.routing_table)) [
  | none ↦ greet w origin receiver p
  | some e ↦ some (refresh_route w origin receiver e p)
]

unfoldable pub process_hello : World → HelloHeader → Address → Protocol → Option Protocol
process_hello w hl receiver p =
    and_then (if p.enable_hello then update_neighbor w hl.origin p.hello_interval p else some p)
      (λ q. learn_neighbor w hl.origin receiver q)

unfoldable pub recv_hello : World → HelloHeader → Address → Protocol → Option Protocol
recv_hello w hl my p = if hl.dst == hl.origin then process_hello w hl my p else some p

-- `(*(*dvt)[nxtHp])[ne].GetHop ()` where both entries exist, and 0 otherwise.
abbrev pub cost_back : Map Entries → Address → Address → ℕ
cost_back dvt nxt_hp ne = elim (find nxt_hp dvt) [
  | none ↦ 0
  | some dv ↦ elim (find ne dv) [ none ↦ 0 | some e ↦ e.hops ]
]

-- The test of RetransmitToNeighbor, in 32 bits: with the costs `c1` of the route and `c2` that the
-- neighbor reported, `c1 - 1` is the cost from the next hop.
abbrev pub is_immediate : ℕ → ℕ → ℕ → Bool
is_immediate c1 c2 c5 = let c3 = (c1 + (2 ^ 32 - 1)) % 2 ^ 32 in c3 == 0 || c5 == (c2 + c3) % 2 ^ 32

-- m_prqueue.Enqueue () with its timeout callback.
unfoldable pub enqueue_reply : World → Address → Address → Protocol → Option Protocol
enqueue_reply w ne dst p =
    and_then
      (Replies.enqueue w (some on_timeout) (new_pending_reply w ne dst w.now) p.prqueue (some p))
      (λ (_, q, s). and_then s (λ r. some (record r { prqueue = q })))

-- The reply to `ne` about an entry of the forwarding table.
unfoldable pub reply_to : World → UpdateHeader → RoutingTableEntry → Protocol → Option Protocol
reply_to w upt e p =
    let t = p.routing_table in
    let nxt_hp = get_next_hop t.routes e in
    if state_eq e.state active && not (nxt_hp == upt.origin)
    then (if is_immediate e.hops upt.hop_count (cost_back t.distance_vector_table nxt_hp upt.origin)
        then send_update e upt.origin p
        else enqueue_reply w upt.origin upt.dst p)
    else some p

unfoldable pub retransmit_to_neighbor : World → UpdateHeader → Protocol → Option Protocol
retransmit_to_neighbor w upt p =
    if is_filtered upt.origin
    then some p
    else elim (find upt.dst p.routing_table.forwarding_table) [
      | none ↦ some p
      | some e ↦ if is_in upt.origin p.nb.nb then reply_to w upt e p else some p
    ]
