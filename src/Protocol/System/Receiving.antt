-- ===== src/Protocol/System/Receiving.antt =====
-- model/bsdvr.cc: that what a received message sets off keeps the state legal.
use bsdvr_ns.Base.{
  ℕ, zero, suc, ◌+◌, ◌%◌, ◌^◌, sym, subst, false, not, ◌&&◌, some, [], ◌==◌, if◌then◌else◌,
  for_each_inv, Option-cases, inl, inr, if-both, option-both, IfSome, and_then-IfSome,
  for_some-IfSome, IfSome-of,
}
use bsdvr_ns.Base.Map.{find}
use bsdvr_ns.Net.{Address, World}
use bsdvr_ns.RoutingTable.{RoutingTableEntry}
use bsdvr_ns.ControlPlane.Legal.{new_entry-AreLegal}
use bsdvr_ns.Protocol.{Protocol}
use bsdvr_ns.Protocol.Handlers.{
  on_timeout, is_immediate, cost_back, enqueue_reply, reply_to, retransmit_to_neighbor,
}
use bsdvr_ns.Protocol.System.Sending.{compute_changes-kept, on_timeout-IfSome}
use bsdvr_ns.RoutingTable.{inactive, active, state_eq, get_next_hop, new_entry, set_route_state}
use bsdvr_ns.Packet.{
  UpdateHeader, Wire, MessageType, type_hello, type_update, new_type_header, deserialize_type,
  deserialize_update, deserialize_hello,
}
use bsdvr_ns.PendingReplies.{PendingReplyEntry, PendingReplyQueue, new_pending_reply}
use bsdvr_ns.PendingReplies as Replies
use bsdvr_ns.PendingReplies.Laws.{expired, purge-expired}
use bsdvr_ns.PacketQueue.Bound.{AreDistinct}
use bsdvr_ns.PacketQueue.Distinct.{dequeue-AreDistinct}
use bsdvr_ns.PacketQueue.{ForwardingStatus, Status, dequeue, find_dst}
use bsdvr_ns.ControlPlane.{is_in}
use bsdvr_ns.ControlPlane.Legal.{update_distance_vector_table-AreLegal}
use bsdvr_ns.Protocol.{is_filtered}
use bsdvr_ns.Protocol.Receive.{
  has_interface, is_mismatch, remove_tag, forward, state_value, learn_update, receiver_of, drain,
  send_packet_from_queue, flush_entry, recv_update, dispatch, recv_bsdv,
}
use bsdvr_ns.Protocol.Replies.{enqueue-state}
use bsdvr_ns.Protocol.System.Sending.{
  send_update-IfSome, send_triggered_update_changes_to_neighbors-IfSome,
}
use bsdvr_ns.Protocol.System.Handling.{IsLegal, IsLegal-IsKept}
use bsdvr_ns.Protocol.System.Meeting.{recv_hello-IfSome}

module _ (w : World) where
  enqueue_reply-IfSome :
      (ne dst : Address) (p : Protocol) → IsLegal p → IfSome IsLegal (enqueue_reply w ne dst p)
  unfolding enqueue_reply
  enqueue_reply-IfSome ne dst p h =
      let e = new_pending_reply w ne dst w.now in
      let q = Replies.enqueue w (some on_timeout) e p.prqueue (some p) in
      let after_timeouts : IfSome IsLegal (Replies.purge w (some on_timeout) p.prqueue (some p)).1 =
        subst (IfSome IsLegal) (sym (purge-expired w on_timeout p.prqueue (some p)).1) (
          for_each_inv (IfSome IsLegal) on_timeout (on_timeout-IfSome IsLegal IsLegal-IsKept)
            (expired w p.prqueue.prqueue) (some p) h) in
      elim (Option-cases q) [
        | inl z ↦ rw z tt
        | inr ((d, a, s), z) ↦
            let t : IfSome IsLegal s =
              subst (IfSome IsLegal)
                (sym (enqueue-state w (some on_timeout) e p.prqueue a d (some p) s z))
                after_timeouts in
            rw z (and_then-IfSome IsLegal IsLegal s _ t (λ r g. g))
      ]

  retransmit_to_neighbor-IfSome :
      (upt : UpdateHeader) (p : Protocol)
      → IsLegal p
      → IfSome IsLegal (retransmit_to_neighbor w upt p)
  unfolding retransmit_to_neighbor reply_to
  retransmit_to_neighbor-IfSome upt p h =
      let P = IfSome IsLegal in
      if-both P (is_filtered upt.origin) (λ _. h)
        (λ _.
          option-both P (find upt.dst p.routing_table.forwarding_table) (λ _. h)
            (λ e _.
              if-both P (is_in upt.origin p.nb.nb)
                (λ _.
                  if-both P
                    (state_eq e.state active
                      && not (get_next_hop p.routing_table.routes e == upt.origin))
                    (λ _.
                      if-both P
                        (is_immediate e.hops upt.hop_count (
                          cost_back p.routing_table.distance_vector_table
                            (get_next_hop p.routing_table.routes e) upt.origin))
                        (λ _. send_update-IfSome IsLegal IsLegal-IsKept e upt.origin p h)
                        (λ _. enqueue_reply-IfSome upt.origin upt.dst p h))
                    (λ _. h))
                (λ _. h)))

  learn_update-IsLegal :
      (upt : UpdateHeader) (my src : Address) (p : Protocol)
      → IsLegal p
      → IsLegal (learn_update w upt my src p).1
  unfolding learn_update
  learn_update-IsLegal upt my src p (t, v) =
      let u = p.routing_table in
      let i = w.interface_for_address my in
      let (e, h) =
        new_entry (w.net_device i) upt.dst (w.address_of i) ((upt.hop_count + 1) % 2 ^ 8) src false
          u.routes in
      let rt = set_route_state (if upt.binary_state == 1 then active else inactive) e in
      let (i', l) =
        new_entry-AreLegal (w.net_device i) upt.dst (w.address_of i) ((upt.hop_count + 1) % 2 ^ 8)
          src false u t.0 in
      let k =
        update_distance_vector_table-AreLegal w src rt p.nb.nb (record u { routes = h }) i'.0 l in
      compute_changes-kept IsLegal IsLegal-IsKept w _ ((k, t.1, t.2, t.3), v)

  module _ (status_of : ForwardingStatus → Status) where
    drain-IfSome :
        (fuel : ℕ) (dst : Address) (route sval : ℕ) (p : Protocol)
        → IsLegal p
        → IfSome IsLegal (drain w status_of fuel dst route sval p)
    unfolding drain forward
    drain-IfSome zero dst route sval p h = tt
    drain-IfSome (suc fuel) dst route sval p h =
        option-both (IfSome IsLegal) (dequeue status_of dst sval p.queue) (λ _. h)
          (λ x z.
            let next = remove_tag x.0.packet.pointer (record p { queue = x.1 }) in
            let i = w.interface_for_device (p.routing_table.routes.route_at route).output_device in
            let d =
              IfSome-of (λ y. AreDistinct y.1.queue) _ x
                (dequeue-AreDistinct status_of dst sval p.queue h.0.3.1) z in
            let g : IsLegal next = ((h.0.0, h.0.1, h.0.2, (h.0.3.0, d)), h.1) in
            if-both (IfSome IsLegal) (has_interface (p.tag_of x.0.packet.pointer) && not p.has_ipv4)
              (λ _. tt)
              (λ _.
                if-both (IfSome IsLegal) (is_mismatch i (p.tag_of x.0.packet.pointer)) (λ _. g)
                  (λ _. drain-IfSome fuel dst route sval (forward route x.0 next) g)))

    flush_entry-IfSome :
        (fuel : ℕ) (x : Address × RoutingTableEntry) (p : Protocol)
        → IsLegal p
        → IfSome IsLegal (flush_entry w status_of fuel x p)
    unfolding flush_entry send_packet_from_queue
    flush_entry-IfSome fuel (dst, e) p h =
        if-both (IfSome IsLegal) (find_dst dst p.queue)
          (λ _. drain-IfSome fuel dst e.ipv4_route (state_value e.state) p h) (λ _. h)

    recv_update-IfSome :
        (fuel : ℕ) (upt : UpdateHeader) (my src : Address) (p : Protocol)
        → IsLegal p
        → IfSome IsLegal (recv_update w status_of fuel upt my src p)
    unfolding recv_update
    recv_update-IfSome fuel upt my src p h =
        let (changes, q) = learn_update w upt my src p in
        let sent =
          send_triggered_update_changes_to_neighbors-IfSome IsLegal IsLegal-IsKept changes [] q
            (learn_update-IsLegal upt my src p h) in
        and_then-IfSome IsLegal IsLegal _ _ sent (λ r g.
          and_then-IfSome IsLegal IsLegal _ _
            (if-both (IfSome IsLegal) (upt.binary_state == 0 && not (upt.dst == upt.origin))
              (λ _. retransmit_to_neighbor-IfSome upt r g) (λ _. g))
            (λ s k.
              for_some-IfSome IsLegal (flush_entry w status_of fuel) (flush_entry-IfSome fuel)
                s.routing_table.forwarding_table s k))

    dispatch-IfSome :
        (b : Wire) (fuel : ℕ) (t : MessageType) (rest : b.Bytes) (my src : Address) (p : Protocol)
        → IsLegal p
        → IfSome IsLegal (dispatch w status_of b fuel t rest my src p)
    unfolding dispatch
    dispatch-IfSome b fuel type_hello rest my src p h =
        if-both (IfSome IsLegal) ((deserialize_hello b rest).0 == 8)
          (λ _. recv_hello-IfSome w (deserialize_hello b rest).1 my p h) (λ _. tt)
    dispatch-IfSome b fuel type_update rest my src p h =
        if-both (IfSome IsLegal) ((deserialize_update b rest).0 == 16)
          (λ _. recv_update-IfSome fuel (deserialize_update b rest).1 my src p h) (λ _. tt)

    pub recv_bsdv-IfSome :
        (b : Wire) (fuel socket : ℕ) (packet : b.Bytes) (sender : Address) (p : Protocol)
        → IsLegal p
        → IfSome IsLegal (recv_bsdv w status_of b fuel socket packet sender p)
    unfolding recv_bsdv
    recv_bsdv-IfSome b fuel socket packet sender p h = elim (Option-cases (receiver_of socket p)) [
      | inl z ↦ rw z tt
      | inr (my, z) ↦
          let (dist, t) = deserialize_type b packet (new_type_header type_update) in
          rw z (
            if-both (IfSome IsLegal) (not (dist == 1)) (λ _. tt)
              (λ _.
                if-both (IfSome IsLegal) t.valid
                  (λ _. dispatch-IfSome b fuel t.message_type (b.read_u8 packet).1 my sender p h)
                  (λ _. h)))
    ]
