-- ===== src/Protocol/Replies.antt =====
-- model/bsdvr.cc: that RetransmitToNeighbor returns, with the timeouts of pending replies that it
-- may run.
use bsdvr_ns.Base.{
  ap, ℕ, ◌+◌, ◌-◌, ◌^◌, ◌%◌, ◌≡◌, refl, Bool, true, not, ◌&&◌, ◌||◌, Option, none, some, false,
  if◌then◌else◌, List, ◌++◌, ◌==◌, for_each, for_each-All, All, if-both, [], ◌∷◌, any, arith,
  Option-cases, Bool-cases, inl, inr, sym, ◌∙◌, subst,
}
use bsdvr_ns.Base.Map.{Map, find}
use bsdvr_ns.Net.{Address, World}
use bsdvr_ns.RoutingTable.{Entries, active, state_eq, RoutingTableEntry, get_next_hop}
use bsdvr_ns.Packet.{UpdateHeader}
use bsdvr_ns.PendingReplies.{
  is_expired, PendingReplyEntry, PendingReplyQueue, new_pending_reply, push, purge, enqueue,
}
use bsdvr_ns.PendingReplies.Laws.{expired, purge-expired}
use bsdvr_ns.PendingReplies.About.{is_about, enqueue-AddsOnly}
use bsdvr_ns.PendingReplies.Enqueue.{IsWellFormed, enqueue_lem}
use bsdvr_ns.ControlPlane.{is_in}
use bsdvr_ns.ControlPlane.FakeEntries.{entry_at}
use bsdvr_ns.Protocol.{
  Protocol, Sent, is_filtered, send_update, send_update_on_pending_reply_entry_timeout,
}
use bsdvr_ns.Protocol.Handlers.{
  on_timeout, cost_back, is_immediate, enqueue_reply, reply_to, retransmit_to_neighbor,
}
use bsdvr_ns.Protocol.Sends.{
  IsSendable, find-IsSendable, send_update_lem, update_through, having_sent,
}

push-state :
    {S : Type 0} (w : World) (h : Option (PendingReplyEntry → S → S)) (e : PendingReplyEntry)
    (q a : PendingReplyQueue) (d : Bool) (s t : S)
    → push w h e q s ≡ some (d, a, t)
    → t ≡ s
unfolding push
push-state w h e q a d s t z = ground arith

pub enqueue-state :
    {S : Type 0} (w : World) (h : Option (PendingReplyEntry → S → S)) (e : PendingReplyEntry)
    (q a : PendingReplyQueue) (d : Bool) (s t : S)
    → enqueue w h e q s ≡ some (d, a, t)
    → t ≡ (purge w h q s).1
unfolding enqueue
enqueue-state w h e q a d s t z = push-state w h e (purge w h q s).0 a d (purge w h q s).1 t z

-- Nothing but more messages.
abbrev Only : Protocol → Option Protocol → Type 0
Only p o = (more : List Sent) × (o ≡ some (record p { sent = more }))

send_update-Only :
    (p : Protocol) (e : RoutingTableEntry) (d ne : Address) (s : List Sent)
    → IsSendable p d
    → find d p.routing_table.forwarding_table ≡ some e
    → Only p (send_update e ne (record p { sent = s }))
send_update-Only p e d ne s h f =
    (s ++ update_through p ne e, send_update_lem p e ne s (find-IsSendable p d e h f))

timeout-Only :
    (p : Protocol) (en : PendingReplyEntry) (o : Option Protocol)
    → IsSendable p en.destination
    → Only p o
    → Only p (on_timeout en o)
unfolding send_update_on_pending_reply_entry_timeout
timeout-Only p en o h (s, z) = elim (Bool-cases (is_filtered en.neighbor)) [
  | inl f ↦ (s, rw (z, on_timeout, send_update_on_pending_reply_entry_timeout, f))
  | inr f ↦ elim (Option-cases (find en.destination p.routing_table.forwarding_table)) [
    | inl g ↦ (s, rw (z, on_timeout, send_update_on_pending_reply_entry_timeout, f, g))
    | inr (e, g) ↦
        elim (Bool-cases (
          is_in en.neighbor p.nb.nb
          && (state_eq e.state active
              && not (get_next_hop p.routing_table.routes e == en.neighbor)))) [
                | inl c ↦
                    let (more, r) = send_update-Only p e en.destination en.neighbor s h g in
                    (
                      more,
                      rw (z, on_timeout, send_update_on_pending_reply_entry_timeout, f, g, c) r,
                    )
                | inr c ↦
                    (s, rw (z, on_timeout, send_update_on_pending_reply_entry_timeout, f, g, c))
              ]
  ]
]

-- The replies that wait are about destinations whose entries, if there are any, have sockets.
abbrev pub AreSendable : Protocol → Type 0
AreSendable p = All (λ en. IsSendable p en.destination) p.prqueue.prqueue

expired-All :
    (P : PendingReplyEntry → Type 0) (w : World) (q : List PendingReplyEntry)
    → All P q
    → All P (expired w q)
unfolding is_expired
expired-All P w [] a = tt
expired-All P w (i ∷ q) a =
    if-both (All P) (is_expired w i) (λ _. (a.0, expired-All P w q a.1))
      (λ _. expired-All P w q a.1)

-- Once the timeouts of the replies that have expired were run, in their order, a reply to the neighbor about the destination stands in a queue that is within its length and has
-- no pair twice, and whose other replies are about destinations that replies were about before.
abbrev pub Queued : World → Protocol → Address → Address → Option Protocol → Type 0
Queued w p ne dst o =
    (more : List Sent) × (queue : PendingReplyQueue) × (for_each on_timeout
        (expired w p.prqueue.prqueue) (some p)
      ≡ some (record p { sent = more }))
    × IsWellFormed queue
    × (any (λ i. i.neighbor == ne && i.destination == dst) queue.prqueue ≡ true)
    × ((d : Address)
        → any (is_about d) queue.prqueue ≡ true
        → (dst == d || any (is_about d) p.prqueue.prqueue) ≡ true)
    × (o ≡ some (record p { sent = more; prqueue = queue }))

enqueue_reply-Queued :
    (w : World) (ne dst : Address) (p : Protocol)
    → AreSendable p
    → IsWellFormed p.prqueue
    → Queued w p ne dst (enqueue_reply w ne dst p)
unfolding enqueue_reply new_pending_reply
enqueue_reply-Queued w ne dst p h v =
    let e = new_pending_reply w ne dst w.now in
    let (done, a, t, z, u, k, _) = enqueue_lem w (some on_timeout) e p.prqueue (some p) v in
    let y : t ≡ for_each on_timeout (expired w p.prqueue.prqueue) (some p) =
      enqueue-state w (some on_timeout) e p.prqueue a done (some p) t z
      ∙ (purge-expired w on_timeout p.prqueue (some p)).1 in
    let (more, x) =
      for_each-All (Only p) (λ (en : PendingReplyEntry). IsSendable p en.destination) on_timeout
        (timeout-Only p) (expired w p.prqueue.prqueue) (some p)
        (expired-All (λ en. IsSendable p en.destination) w p.prqueue.prqueue h) (p.sent, refl) in
    let b =
      λ (d : Address). enqueue-AddsOnly w (some on_timeout) d e p.prqueue a (some p) t done z in
    (more, a, x, u, k, b, rw (z, y, x))

-- The entry that the sender of an update is replied with: an active one for the destination, not by
-- way of the sender, if the sender is a neighbor and is not filtered.
abbrev pub reply_entry : Protocol → UpdateHeader → Option RoutingTableEntry
reply_entry p upt = elim (find upt.dst p.routing_table.forwarding_table) [
  | none ↦ none
  | some e ↦
      if not (is_filtered upt.origin)
        && (is_in upt.origin p.nb.nb
            && (state_eq e.state active
                && not (get_next_hop p.routing_table.routes e == upt.origin)))
      then some e
      else none
]

abbrev hops_of : Option RoutingTableEntry → ℕ
hops_of none = 0
hops_of (some x) = x.hops

-- Whether the entry is sent at once: its cost from the next hop, one less than its hops in 32 bits, is 0,
-- or with the cost that the neighbor reported it is the next hop's cost to the neighbor, 0 if that has no
-- such route.
abbrev pub is_at_once : Protocol → UpdateHeader → RoutingTableEntry → Bool
is_at_once p upt e =
    let back =
      entry_at (get_next_hop p.routing_table.routes e) upt.origin
        p.routing_table.distance_vector_table in
    let cost = (e.hops + (2 ^ 32 - 1)) % 2 ^ 32 in
    cost == 0 || hops_of back == (upt.hop_count + cost) % 2 ^ 32

cost_back-entry_at :
    (dvt : Map Entries) (via ne : Address) → cost_back dvt via ne ≡ hops_of (entry_at via ne dvt)
cost_back-entry_at dvt via ne = elim (Option-cases (find via dvt)) [
  | inl z ↦ rw (cost_back, entry_at, z) refl
  | inr (dv, z) ↦ elim (Option-cases (find ne dv)) [
    | inl y ↦ rw (cost_back, entry_at, z, y) refl
    | inr (x, y) ↦ rw (cost_back, entry_at, z, y) refl
  ]
]

is_immediate-is_at_once :
    (p : Protocol) (upt : UpdateHeader) (e : RoutingTableEntry)
    → is_immediate e.hops upt.hop_count (
        cost_back p.routing_table.distance_vector_table
          (get_next_hop p.routing_table.routes e)
          upt.origin)
      ≡ is_at_once p upt e
is_immediate-is_at_once p upt e = ap (is_immediate e.hops upt.hop_count) (
    cost_back-entry_at p.routing_table.distance_vector_table (get_next_hop p.routing_table.routes e)
      upt.origin)

-- What a reply leaves: nothing where there is no entry; the update at once; or a reply that waits.
abbrev pub Replied :
    World → Protocol → UpdateHeader → Option RoutingTableEntry → Option Protocol → Type 0
Replied w p upt none o = o ≡ some p
Replied w p upt (some e) o =
    (is_at_once p upt e ≡ true → o ≡ some (having_sent p (update_through p upt.origin e)))
    × (is_at_once p upt e ≡ false → Queued w p upt.origin upt.dst o)

reply_to-Replied :
    (w : World) (upt : UpdateHeader) (e : RoutingTableEntry) (p : Protocol)
    → IsSendable p upt.dst
    → AreSendable p
    → IsWellFormed p.prqueue
    → find upt.dst p.routing_table.forwarding_table ≡ some e
    → (state_eq e.state active && not (get_next_hop p.routing_table.routes e == upt.origin)) ≡ true
    → Replied w p upt (some e) (reply_to w upt e p)
unfolding reply_to
reply_to-Replied w upt e p h a v f c = (
  λ m.
      rw (c, is_immediate-is_at_once p upt e, m, reply_to)
        (send_update_lem p e upt.origin p.sent (find-IsSendable p upt.dst e h f)),
  λ m.
      let (more, q, x, u, k, b, z) = enqueue_reply-Queued w upt.origin upt.dst p a v in
      (more, q, x, u, k, b, rw (c, is_immediate-is_at_once p upt e, m, reply_to) z),
)

retransmit_to_neighbor-found :
    (w : World) (upt : UpdateHeader) (e : RoutingTableEntry) (p : Protocol)
    → find upt.dst p.routing_table.forwarding_table ≡ some e
    → retransmit_to_neighbor w upt p ≡ (
        if not (is_filtered upt.origin) && is_in upt.origin p.nb.nb
        then reply_to w upt e p
        else some p)
unfolding retransmit_to_neighbor
retransmit_to_neighbor-found w upt e p g = elim (Bool-cases (is_filtered upt.origin)) [
  | inl f ↦ rw (f, retransmit_to_neighbor)
  | inr f ↦ rw (f, g, retransmit_to_neighbor)
]

reply_to-nothing :
    (w : World) (upt : UpdateHeader) (e : RoutingTableEntry) (p : Protocol)
    → (state_eq e.state active && not (get_next_hop p.routing_table.routes e == upt.origin)) ≡ false
    → reply_to w upt e p ≡ some p
unfolding reply_to
reply_to-nothing w upt e p c = rw (c, reply_to)

-- Where the forwarding table's entries for the update's destination and for those of the replies that
-- wait have sockets, and the pending reply queue has room for an entry, is within its length and has no
-- pair twice, RetransmitToNeighbor returns. It does nothing if the forwarding table has no active entry
-- for the destination that leads by another node than the sender, or the sender is no neighbor or is
-- filtered. Otherwise it sends the sender one update about the entry, if the entry's cost from its next
-- hop is 0, or is with the cost that the sender reported the cost from that next hop to the sender; or
-- else it runs the timeouts of the replies that have expired, in their order, which may send more, and
-- leaves a reply to the sender in the queue, which has room for an entry, is within its length and has no
-- pair twice then. Nothing but the queue and what was sent changes.
pub retransmit_to_neighbor-Replied :
    (w : World) (upt : UpdateHeader) (p : Protocol)
    → IsSendable p upt.dst
    → AreSendable p
    → IsWellFormed p.prqueue
    → Replied w p upt (reply_entry p upt) (retransmit_to_neighbor w upt p)
unfolding retransmit_to_neighbor
retransmit_to_neighbor-Replied w upt p h a v =
    elim (Option-cases (find upt.dst p.routing_table.forwarding_table)) [
      | inl g ↦
          let r : reply_entry p upt ≡ none = rw (g, reply_entry) in
          let z : retransmit_to_neighbor w upt p ≡ some p = ground (arith, g) in
          subst (λ x. Replied w p upt x (retransmit_to_neighbor w upt p)) (sym r) z
      | inr (e, g) ↦
          let c =
            state_eq e.state active && not (get_next_hop p.routing_table.routes e == upt.origin) in
          elim (Bool-cases (not (is_filtered upt.origin) && (is_in upt.origin p.nb.nb && c))) [
            | inl b ↦
                let r : reply_entry p upt ≡ some e = rw (g, b, reply_entry) in
                let z : retransmit_to_neighbor w upt p ≡ reply_to w upt e p =
                  ground (arith, retransmit_to_neighbor-found w upt e p g, b) in
                let y : c ≡ true = ground (arith, b) in
                subst (λ x. Replied w p upt x (retransmit_to_neighbor w upt p)) (sym r)
                  (subst (Replied w p upt (some e)) (sym z) (reply_to-Replied w upt e p h a v g y))
            | inr b ↦
                let r : reply_entry p upt ≡ none = rw (g, b, reply_entry) in
                let z : retransmit_to_neighbor w upt p ≡ some p = ground (
                  arith,
                  retransmit_to_neighbor-found w upt e p g,
                  reply_to-nothing w upt e p,
                  b,
                ) in
                subst (λ x. Replied w p upt x (retransmit_to_neighbor w upt p)) (sym r) z
          ]
    ]
