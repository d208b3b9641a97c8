-- ===== src/Protocol/Data/Tests.antt =====
-- Packets of node 1, and packets that it gets.
use bsdvr_ns.Base.{◌≡◌, refl, Bool, true, found, Option, none, some, [], ◌∷◌, ◌++◌, List, ℕ, arith}
use bsdvr_ns.Base.Map.{find}
use bsdvr_ns.RoutingTable.{inactive, active}
use bsdvr_ns.PacketQueue.{inactive_forwarded, not_forwarded, Ipv4Header, Packet}
use bsdvr_ns.Protocol.{Protocol}
use bsdvr_ns.Protocol.Receive.{send_packet_from_queue}
use bsdvr_ns.Protocol.Data.{SocketErrno, error_noterror, Call, route_output, route_input}
use bsdvr_ns.Protocol.Data.Output.{Outcome, route_output-Outcome}
use bsdvr_ns.Protocol.Data.Input.{Handled, route_input-Handled}
use bsdvr_ns.Protocol.Data.Deferred.{deferred, route_output-route_input-buffers}
use bsdvr_ns.Protocol.Data.Forgets.{forwarded_as, send_packet_from_queue-forgets}
use bsdvr_ns.Samples.{node, world, careless, queued}

abbrev packet : Packet
packet = record { pointer = 20; uid = 20 }

abbrev header : ℕ → Ipv4Header
header dst = record { source = 8; destination = dst; ttl = 64; protocol = 17 }

abbrev roomy : Protocol
roomy = record (node careless) { queue = record { queue = []; max_len = 2 } }

-- The route to 7 is through the device 1.
route_output-Outcome_example :
    (o : Option ℕ × SocketErrno × Protocol) × (route_output world
        (some 20)
        7
        (some 1)
        error_noterror
        (node careless)
      ≡ some o)
    × Outcome world 20 7 (some 1) (node careless) o
route_output-Outcome_example =
    route_output-Outcome world 20 7 (some 1) error_noterror (node careless) refl refl refl refl

-- A packet for 7 is forwarded.
route_input-Handled_example :
    (o : Bool × List Call × Protocol) × (route_input careless world packet
        (header 7)
        1
        4
        (some 3)
        5
        (node careless)
      ≡ some o)
    × Handled careless world packet (header 7) 1 4 (some 3) 5 (node careless) o
route_input-Handled_example =
    route_input-Handled careless world packet (header 7) 1 4 (some 3) 5 (node careless) refl
      (omega arith)

-- A packet for 9, to which there is no route.
route_output-route_input-buffers_example :
    (route : ℕ) × (q r : Protocol) × (route_output world (some 20) 9 none error_noterror roomy
      ≡ some (some route, error_noterror, q))
    × ((q.routing_table.routes.route_at route).output_device ≡ 0)
    × (route_input careless world packet (header 9) 0 4 (some 3) 5 q ≡ some (true, [], r))
    × (r.queue.queue ≡ deferred careless packet (header 9) 4 5 ∷ [])
    × (found (r.tag_of 20) ≡ true)
unfolding find
route_output-route_input-buffers_example =
    route_output-route_input-buffers world careless packet (header 9) none error_noterror 4 (some 3)
      5 0 roomy refl refl (omega arith) refl refl refl refl (omega arith)

-- A packet for 7 that is tagged for the interface 2.
abbrev tagged : Protocol
tagged = record (node careless) {
  queue = record { queue = queued careless 20 7 not_forwarded ∷ []; max_len = 2 };
  tag_of = λ x. some (some 2);
}

send_packet_from_queue-forgets_example :
    (q r : Protocol) × (send_packet_from_queue world careless 2 7 0 inactive tagged ≡ some q)
    × (q.forwarded ≡ [])
    × (q.queue.queue ≡ queued careless 20 7 inactive_forwarded ∷ [])
    × (q.tag_of 20 ≡ none)
    × (send_packet_from_queue world careless 2 7 1 active q
        ≡ send_packet_from_queue world careless 1 7 1 active r)
    × (r.forwarded ≡ [] ++ forwarded_as tagged 1 (queued careless 20 7 not_forwarded) ∷ [])
send_packet_from_queue-forgets_example =
    send_packet_from_queue-forgets world careless 1 1 7 0 1 2 (queued careless 20 7 not_forwarded)
      [] tagged refl refl refl refl refl refl
