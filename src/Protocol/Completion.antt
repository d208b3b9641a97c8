-- ===== src/Protocol/Completion.antt =====
-- model/bsdvr.cc: that RecvUpdate returns.
use bsdvr_ns.Base.{
  for_some, for_some-IfSome, subst, sym, ap, false, any, contains, ℕ, suc, zero, ◌+◌, ◌%◌, ◌^◌, ◌≡◌,
  refl, ◌∙◌, true, false, not, ◌&&◌, Option, none, some, List, [], ◌∷◌, ◌++◌, ◌==◌, if◌then◌else◌,
  All, length, length-append, found, arith, Bool-cases, inl, inr, if-both, option-both, IfSome,
  IfSome-of, Returns,
}
use bsdvr_ns.Base.Map.{Map}
use bsdvr_ns.Net.{Address, InterfaceAddress, World}
use bsdvr_ns.RoutingTable.{
  inactive, active, RoutingTable, RoutingTableEntry, new_entry, set_route_state,
}
use bsdvr_ns.Packet.{UpdateHeader}
use bsdvr_ns.PendingReplies.{PendingReplyEntry, PendingReplyQueue}
use bsdvr_ns.PacketQueue.{ForwardingStatus, Status, QueueEntry, PacketQueue, dequeue, find_dst}
use bsdvr_ns.PacketQueue.Buffer.{dequeue_lem, marked}
use bsdvr_ns.Protocol.{Protocol, Sent, Forwarded, loopback, find_socket, compute_changes}
use bsdvr_ns.Protocol.Sendable.{
  IsReady, Keeps, with_sent, update_distance_vector_table-IsReady, compute_changes-IsReady,
}
use bsdvr_ns.PendingReplies.About.{is_about}
use bsdvr_ns.Protocol.Handlers.{retransmit_to_neighbor}
use bsdvr_ns.Protocol.Receive.{
  has_interface, is_mismatch, remove_tag, forward, state_value, learn_update, drain,
  send_packet_from_queue, flush_entry, recv_update,
}
use bsdvr_ns.Protocol.Sends.{
  HasSockets, IsSendable, HasSockets-IsSendable, HasSockets-AreSendable, all_sent, announces_all,
  having_sent, update_through, send_triggered_update_changes_to_neighbors_lem,
}
use bsdvr_ns.PacketQueue.Bound as Bound
use bsdvr_ns.PacketQueue.Bound.{AreDistinct}
use bsdvr_ns.PacketQueue.Distinct.{dequeue-AreDistinct}
use bsdvr_ns.Protocol.Replies.{Replied, reply_entry, is_at_once, retransmit_to_neighbor-Replied}

-- The interface of a receiver has a socket.
abbrev pub HasReceiver : World → Map InterfaceAddress → Address → Type 0
HasReceiver w m my = found (find_socket (w.address_of (w.interface_for_address my)) m) ≡ true

pub learn_update-IsReady :
    (w : World) (upt : UpdateHeader) (my src : Address) (p : Protocol)
    → HasReceiver w p.socket_addresses my
    → IsReady p
    → IsReady (learn_update w upt my src p).1
      × (contains loopback (learn_update w upt my src p).0 ≡ false)
unfolding learn_update new_entry
learn_update-IsReady w upt my src p s r =
    let u = p.routing_table in
    let i = w.interface_for_address my in
    let (e, h) =
      new_entry (w.net_device i) upt.dst (w.address_of i) ((upt.hop_count + 1) % 2 ^ 8) src false
        u.routes in
    let rt = set_route_state (if upt.binary_state == 1 then active else inactive) e in
    compute_changes-IsReady w _ (update_distance_vector_table-IsReady w src rt h p s r)

others-AreSendable :
    (p : Protocol)
    → HasSockets p
    → (q : List PendingReplyEntry) → any (is_about loopback) q ≡ false
    → All (λ en. IsSendable p en.destination) q
others-AreSendable p h [] n = tt
others-AreSendable p h (i ∷ q) n = (
  HasSockets-IsSendable p i.destination h (ground (arith, n)),
  others-AreSendable p h q (ground (arith, n)),
)

-- RetransmitToNeighbor changes what was sent and the pending reply queue, and leaves the node ready.
abbrev Answers : Protocol → Option Protocol → Type 0
Answers p o =
    (more : List Sent) × (queue : PendingReplyQueue) × (o
      ≡ some (record p { sent = more; prqueue = queue }))
    × IsReady (record p { sent = more; prqueue = queue })

Replied-Answers :
    (w : World) (p : Protocol) (upt : UpdateHeader) (x : Option RoutingTableEntry)
    (o : Option Protocol)
    → IsReady p
    → (upt.dst == loopback) ≡ false
    → Replied w p upt x o
    → Answers p o
Replied-Answers w p upt none o r n h = (p.sent, p.prqueue, h, r)
Replied-Answers w p upt (some e) o r n (f, g) = elim (Bool-cases (is_at_once p upt e)) [
  | inl z ↦ (p.sent ++ update_through p upt.origin e, p.prqueue, f z, with_sent p _ r)
  | inr z ↦
      let (more, queue, _, v, _, b, e') = g z in
      (
        more,
        queue,
        e',
        record {
          sends = r.sends;
          replies = v;
          others = ground (arith, b loopback, n, r.others);
          partners = r.partners;
          with_ipv4 = r.with_ipv4;
          with_lo = r.with_lo;
          buffer = r.buffer;
        },
      )
]

dequeue-length :
    (status_of : ForwardingStatus → Status) (dst : Address) (sval : ℕ) (q r : PacketQueue)
    (e : QueueEntry)
    → dequeue status_of dst sval q ≡ some (e, r)
    → length r.queue ≡ length q.queue
dequeue-length status_of dst sval q r e d = elim (dequeue_lem status_of dst sval q) [
  | inl (h, n) ↦ cc
  | inr (i, before, after, p, h, t, m) ↦
      let i' = marked status_of dst sval i in
      let z : r ≡ record q { queue = before ++ i' ∷ after } = cc in
      rw (z, p, length-append before (i ∷ after), length-append before (i' ∷ after))
]

dequeue-max_len :
    (status_of : ForwardingStatus → Status) (dst : Address) (sval : ℕ) (q r : PacketQueue)
    (e : QueueEntry)
    → dequeue status_of dst sval q ≡ some (e, r)
    → r.max_len ≡ q.max_len
unfolding dequeue
dequeue-max_len status_of dst sval q r e d = ground (arith, d)

dequeue-IsWellFormed :
    (status_of : ForwardingStatus → Status) (dst : Address) (sval : ℕ) (q r : PacketQueue)
    (e : QueueEntry)
    → dequeue status_of dst sval q ≡ some (e, r)
    → Bound.IsWellFormed q
    → Bound.IsWellFormed r
dequeue-IsWellFormed status_of dst sval q r e d (l, v) = (
  rw (dequeue-length status_of dst sval q r e d, dequeue-max_len status_of dst sval q r e d) l,
  IfSome-of (λ x. AreDistinct x.1.queue) _ (e, r) (dequeue-AreDistinct status_of dst sval q v) d,
)

-- What the end of RecvUpdate leaves: the tables, how many packets are buffered, and a node that is
-- ready.
abbrev pub Flushed : ℕ → RoutingTable → Map InterfaceAddress → Protocol → Type 0
Flushed n t m r = (length r.queue.queue ≡ n) × (r.routing_table ≡ t) × Keeps m r

-- No buffered packet is for a destination of the forwarding table.
abbrev pub IsUnasked : Protocol → RoutingTable → Type 0
IsUnasked p t = All (λ x. find_dst x.0 p.queue ≡ false) t.forwarding_table

-- As where the buffer is empty.
pub IsUnasked-empty :
    (p : Protocol) (m : List (Address × RoutingTableEntry))
    → p.queue.queue ≡ []
    → All (λ x. find_dst x.0 p.queue ≡ false) m
unfolding find_dst
IsUnasked-empty p [] h = tt
IsUnasked-empty p (x ∷ m) h = (rw h refl, IsUnasked-empty p m h)

-- A buffer may be replaced by one that is well-formed too.
with_queue :
    (p : Protocol) (q : PacketQueue) (tags : ℕ → Option (Option ℕ)) (f : List Forwarded)
    → IsReady p
    → Bound.IsWellFormed q
    → IsReady (record p { queue = q; tag_of = tags; forwarded = f })
with_queue p q tags f r v = record {
  sends = r.sends;
  replies = r.replies;
  others = r.others;
  partners = r.partners;
  with_ipv4 = r.with_ipv4;
  with_lo = r.with_lo;
  buffer = v;
}

module _ (w : World) (status_of : ForwardingStatus → Status) (m : Map InterfaceAddress) where
  drain-Flushed :
      (fuel : ℕ) (dst : Address) (route sval n : ℕ) (t : RoutingTable) (p : Protocol)
      → Flushed n t m p
      → IfSome (Flushed n t m) (drain w status_of fuel dst route sval p)
  unfolding drain forward
  drain-Flushed zero dst route sval n t p h = tt
  drain-Flushed (suc fuel) dst route sval n t p (h, k, (e, c)) =
      let P = Flushed n t m in
      option-both (IfSome P) (dequeue status_of dst sval p.queue) (λ _. (h, k, (e, c)))
        (λ x z.
          let l = dequeue-length status_of dst sval p.queue x.1 x.0 z ∙ h in
          let v = dequeue-IsWellFormed status_of dst sval p.queue x.1 x.0 z c.buffer in
          let next = remove_tag x.0.packet.pointer (record p { queue = x.1 }) in
          let i = w.interface_for_device (p.routing_table.routes.route_at route).output_device in
          if-both (IfSome P) (has_interface (p.tag_of x.0.packet.pointer) && not p.has_ipv4)
            (λ _. tt)
            (λ _.
              if-both (IfSome P) (is_mismatch i (p.tag_of x.0.packet.pointer))
                (λ _. (l, k, (e, with_queue p _ _ _ c v)))
                (λ _.
                  drain-Flushed fuel dst route sval n t (forward route x.0 next)
                    (l, k, (e, with_queue p _ _ _ c v)))))

  flush_entry-Flushed :
      (fuel n : ℕ) (t : RoutingTable) (x : Address × RoutingTableEntry) (p : Protocol)
      → Flushed n t m p
      → IfSome (Flushed n t m) (flush_entry w status_of fuel x p)
  unfolding flush_entry send_packet_from_queue
  flush_entry-Flushed fuel n t (dst, e) p h =
      if-both (IfSome (Flushed n t m)) (find_dst dst p.queue)
        (λ _. drain-Flushed fuel dst e.ipv4_route (state_value e.state) n t p h) (λ _. h)

  -- No assertion fails before the buffer is flushed, and what is flushed is this.
  abbrev pub Unflushed : (t : RoutingTable) → Protocol → Protocol → Type 0
  Unflushed t p s =
      (s.routing_table ≡ t) × (s.queue ≡ p.queue) × (s.forwarded ≡ p.forwarded) × Keeps m s

  recv_update-flush :
      (upt : UpdateHeader) (my src : Address) (p : Protocol)
      → HasReceiver w m my
      → Keeps m p
      → (upt.binary_state == 0 && upt.dst == loopback) ≡ false
      → (s : Protocol) × Unflushed (learn_update w upt my src p).1.routing_table p s
        × ((fuel : ℕ)
            → recv_update w status_of fuel upt my src p
              ≡ for_some (flush_entry w status_of fuel) s.routing_table.forwarding_table s)
  unfolding recv_update learn_update compute_changes
  recv_update-flush upt my src p s (d, c) b =
      let (changes, q) = learn_update w upt my src p in
      let (k, a) = learn_update-IsReady w upt my src p (rw d s) c in
      let updates = all_sent (announces_all q changes []) q.nb.nb in
      let e =
        send_triggered_update_changes_to_neighbors_lem changes [] q
          (HasSockets-AreSendable q changes k.sends.0 a) in
      let r = having_sent q updates in
      let g : IsReady r = with_sent q _ k in
      let answered : Answers r (
          if upt.binary_state == 0 && not (upt.dst == upt.origin)
          then retransmit_to_neighbor w upt r
          else some r) =
        if-both (Answers r) (upt.binary_state == 0 && not (upt.dst == upt.origin))
          (λ f.
            let y : (upt.dst == loopback) ≡ false = ground (arith, f, b) in
            Replied-Answers w r upt (reply_entry r upt) (retransmit_to_neighbor w upt r) g y (
              retransmit_to_neighbor-Replied w upt r (HasSockets-IsSendable r upt.dst g.sends.0 y)
                (others-AreSendable r g.sends.0 r.prqueue.prqueue g.others) g.replies))
          (λ _. (r.sent, r.prqueue, refl, g)) in
      let (more, queue, z, v) = answered in
      (
        record r { sent = more; prqueue = queue },
        (refl, refl, refl, (d, v)),
        λ fuel. rw (e, z) refl,
      )

  pub recv_update-Flushed :
      (fuel : ℕ) (upt : UpdateHeader) (my src : Address) (p : Protocol)
      → HasReceiver w m my
      → Keeps m p
      → (upt.binary_state == 0 && upt.dst == loopback) ≡ false
      → IfSome
          (Flushed (length p.queue.queue) (learn_update w upt my src p).1.routing_table m)
          (recv_update w status_of fuel upt my src p)
  recv_update-Flushed fuel upt my src p h c b =
      let (s, (t, q, _, k), e) = recv_update-flush upt my src p h c b in
      let n = length p.queue.queue in
      let u = (learn_update w upt my src p).1.routing_table in
      subst (IfSome (Flushed n u m)) (sym (e fuel)) (
        for_some-IfSome (Flushed n u m) (flush_entry w status_of fuel)
          (flush_entry-Flushed fuel n u) s.routing_table.forwarding_table s
          (ap (λ x. length x.queue) q, t, k))

  unasked :
      (fuel : ℕ) (s : Protocol) (x : List (Address × RoutingTableEntry))
      → All (λ y. find_dst y.0 s.queue ≡ false) x
      → for_some (flush_entry w status_of fuel) x s ≡ some s
  unfolding flush_entry
  unasked fuel s [] a = refl
  unasked fuel s ((dst, e) ∷ x) (h, a) = rw h (unasked fuel s x a)

  -- Whatever the constructor of Status leaves: where the node is ready, with the sockets of `m`, the
  -- receiver's interface has one of them, the update does not say that the loopback address is
  -- inactive, and no buffered packet is for a destination of the forwarding table that the update leads
  -- to, RecvUpdate returns. No assertion fails; the tables are those that the update leads to; the
  -- buffer is as it was and no packet was forwarded; and the node is ready again, with the same
  -- sockets.
  pub recv_update-Returns :
      (fuel : ℕ) (upt : UpdateHeader) (my src : Address) (p : Protocol)
      → HasReceiver w m my
      → Keeps m p
      → (upt.binary_state == 0 && upt.dst == loopback) ≡ false
      → IsUnasked p (learn_update w upt my src p).1.routing_table
      → Returns
          (Unflushed (learn_update w upt my src p).1.routing_table p)
          (recv_update w status_of fuel upt my src p)
  recv_update-Returns fuel upt my src p h c b a =
      let (s, (t, q, f, k), e) = recv_update-flush upt my src p h c b in
      (s, e fuel ∙ unasked fuel s s.routing_table.forwarding_table (rw (t, q) a), (t, q, f, k))
