-- ===== src/Protocol/Buffered.antt =====
-- model/bsdvr.cc: whether the loop of SendPacketFromQueue ends.
use bsdvr_ns.Base.{ℕ, suc, zero, ◌≡◌, refl, true, none, found, arith, Option-cases, inl, inr}
use bsdvr_ns.Net.{Address, World}
use bsdvr_ns.RoutingTable.{RouteState}
use bsdvr_ns.PacketQueue.{
  ForwardingStatus, not_forwarded, inactive_forwarded, active_forwarded, Status, status_eq, dequeue,
}
use bsdvr_ns.PacketQueue.Buffer.{dequeue-dequeue}
use bsdvr_ns.Protocol.{Protocol}
use bsdvr_ns.Protocol.Receive.{remove_tag, forward, state_value, drain, send_packet_from_queue}

module _ (w : World) (status_of : ForwardingStatus → Status) where
  drain-never :
      status_eq (status_of active_forwarded) (status_of not_forwarded) ≡ true
      → status_eq (status_of inactive_forwarded) (status_of not_forwarded) ≡ true
      → (fuel : ℕ) (dst : Address) (route sval : ℕ) (p : Protocol) → ((x : ℕ) → p.tag_of x ≡ none)
      → found (dequeue status_of dst sval p.queue) ≡ true
      → drain w status_of fuel dst route sval p ≡ none
  unfolding drain forward
  drain-never same same' zero dst route sval p tags h = refl
  drain-never same same' (suc fuel) dst route sval p tags h =
      elim (Option-cases (dequeue status_of dst sval p.queue)) [
        | inl z ↦ absurd (ground (arith, h, z))
        | inr ((e, q), z) ↦
            rw (z, drain, tags e.packet.pointer)
              (drain-never same same' fuel dst route sval
                (forward route e (remove_tag e.packet.pointer (record p { queue = q })))
                (λ x. ground (arith, tags x))
                (dequeue-dequeue status_of dst sval same same' p.queue q e z))
      ]

  -- Where a new Status is the same for a packet that was forwarded and for one that was not, as it
  -- may be with a constructor that ignores its argument, SendPacketFromQueue does not end once it has
  -- a packet to take, if no packet carries a DeferredRouteOutputTag: no amount of fuel is enough.
  pub send_packet_from_queue-never :
      status_eq (status_of active_forwarded) (status_of not_forwarded) ≡ true
      → status_eq (status_of inactive_forwarded) (status_of not_forwarded) ≡ true
      → (fuel : ℕ) (dst : Address) (route : ℕ) (s : RouteState) (p : Protocol)
      → ((x : ℕ) → p.tag_of x ≡ none)
      → found (dequeue status_of dst (state_value s) p.queue) ≡ true
      → send_packet_from_queue w status_of fuel dst route s p ≡ none
  unfolding send_packet_from_queue
  send_packet_from_queue-never same same' fuel dst route s p tags h =
      drain-never same same' fuel dst route (state_value s) p tags h
