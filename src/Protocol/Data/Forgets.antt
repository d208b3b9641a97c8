-- ===== src/Protocol/Data/Forgets.antt =====
-- model/bsdvr.cc: what SendPacketFromQueue does to the tag of a packet that was deferred.
use bsdvr_ns.Base.{
  ℕ, suc, ◌+◌, ◌%◌, ◌^◌, ◌≡◌, refl, true, false, none, some, List, [], ◌∷◌, ◌++◌, ◌==◌, ==_refl,
  arith,
}
use bsdvr_ns.Net.{Address, World}
use bsdvr_ns.RoutingTable.{inactive, active}
use bsdvr_ns.PacketQueue.{
  ForwardingStatus, not_forwarded, inactive_forwarded, active_forwarded, Status, status_eq,
  QueueEntry, goes_to, PacketQueue, taken_as, dequeue, dequeue_loop,
}
use bsdvr_ns.Protocol.{Protocol, Forwarded}
use bsdvr_ns.Protocol.Receive.{remove_tag, forward, drain, send_packet_from_queue}

-- What a packet is forwarded with.
abbrev pub forwarded_as : Protocol → ℕ → QueueEntry → Forwarded
forwarded_as p route e = record {
  callback = e.ucb;
  route_used = route;
  packet_pointer = e.packet.pointer;
  new_header = record e.header {
    source = (p.routing_table.routes.route_at route).source;
    ttl = (e.header.ttl + 1) % 2 ^ 8;
  };
}

module _ (w : World) (status_of : ForwardingStatus → Status) where
  status_eq_refl : (a : Status) → status_eq a a ≡ true
  status_eq_refl a = ground arith

  dequeue-head :
      (dst : Address) (sval : ℕ) (q : PacketQueue) (e : QueueEntry) (rest : List QueueEntry)
      (s : Status)
      → q.queue ≡ e ∷ rest
      → taken_as status_of dst sval e ≡ some s
      → dequeue status_of dst sval q
        ≡ some (record e { status = s }, record q { queue = record e { status = s } ∷ rest })
  unfolding dequeue dequeue_loop
  dequeue-head dst sval q e rest s h t = rw (h, dequeue, dequeue_loop, t)

  -- The packet at the head, with another status and without its tag.
  abbrev pub passed_over : ForwardingStatus → QueueEntry → List QueueEntry → Protocol → Protocol
  passed_over s e rest p =
      remove_tag e.packet.pointer
        (record p { queue = record p.queue { queue = record e { status = status_of s } ∷ rest } })

  -- A drain that begins with a packet for another interface ends with it.
  drain-mismatch :
      (fuel : ℕ) (dst : Address) (route oif : ℕ) (e : QueueEntry) (rest : List QueueEntry)
      (p : Protocol)
      → p.has_ipv4 ≡ true
      → p.queue.queue ≡ e ∷ rest
      → goes_to dst e ≡ true
      → e.status ≡ status_of not_forwarded
      → p.tag_of e.packet.pointer ≡ some (some oif)
      → (oif == w.interface_for_device (p.routing_table.routes.route_at route).output_device)
        ≡ false
      → drain w status_of (suc fuel) dst route 1 p ≡ some (passed_over inactive_forwarded e rest p)
  unfolding drain
  drain-mismatch fuel dst route oif e rest p c h g s t m =
      let taken : taken_as status_of dst 1 e ≡ some (status_of inactive_forwarded) =
        rw (s, g, status_eq_refl (status_of not_forwarded)) in
      rw (dequeue-head dst 1 p.queue e rest _ h taken, drain, t, c, m)

  -- The state in which that packet has been forwarded by the other route.
  abbrev let_through : ℕ → QueueEntry → List QueueEntry → Protocol → Protocol
  let_through route e rest p =
      let q = passed_over inactive_forwarded e rest p in
      let e' = record e { status = status_of active_forwarded } in
      forward route e'
        (remove_tag e.packet.pointer (record q { queue = record q.queue { queue = e' ∷ rest } }))

  -- A drain for an active route that begins with a packet that was passed over forwards it first.
  drain-passed_over :
      (fuel : ℕ) (dst : Address) (route : ℕ) (e : QueueEntry) (rest : List QueueEntry)
      (p : Protocol)
      → goes_to dst e ≡ true
      → drain w status_of (suc fuel) dst route 2 (passed_over inactive_forwarded e rest p)
        ≡ drain w status_of fuel dst route 2 (let_through route e rest p)
  unfolding drain
  drain-passed_over fuel dst route e rest p g =
      let q = passed_over inactive_forwarded e rest p in
      let e' = record e { status = status_of inactive_forwarded } in
      let taken : taken_as status_of dst 2 e' ≡ some (status_of active_forwarded) =
        rw (g, status_eq_refl (status_of inactive_forwarded)) (ground arith) in
      let t : q.tag_of e.packet.pointer ≡ none = rw (==_refl e.packet.pointer) in
      rw (dequeue-head dst 2 q.queue e' rest _ refl taken, drain, t) refl

  -- On a node with IP, a packet that was deferred for an interface can leave through another, whatever
  -- the constructor of Status leaves. It stands at the head of the buffer, not forwarded yet and with a
  -- DeferredRouteOutputTag for the interface `oif`, and SendPacketFromQueue is called for its destination
  -- with an inactive route through another interface. The call returns without having forwarded the
  -- packet, but it loses its tag and stays in the buffer. The next call for its destination with an
  -- active route forwards it first, whatever the interface of that route: it does with one round more
  -- what it does from a state in which just that packet has been forwarded.
  pub send_packet_from_queue-forgets :
      (fuel fuel' : ℕ) (dst : Address) (route route' oif : ℕ) (e : QueueEntry)
      (rest : List QueueEntry) (p : Protocol)
      → p.has_ipv4 ≡ true
      → p.queue.queue ≡ e ∷ rest
      → goes_to dst e ≡ true
      → e.status ≡ status_of not_forwarded
      → p.tag_of e.packet.pointer ≡ some (some oif)
      → (oif == w.interface_for_device (p.routing_table.routes.route_at route).output_device)
        ≡ false
      → (q r : Protocol) × (send_packet_from_queue w status_of (suc fuel) dst route inactive p
          ≡ some q)
        × (q.forwarded ≡ p.forwarded)
        × (q.queue.queue ≡ record e { status = status_of inactive_forwarded } ∷ rest)
        × (q.tag_of e.packet.pointer ≡ none)
        × (send_packet_from_queue w status_of (suc fuel') dst route' active q
            ≡ send_packet_from_queue w status_of fuel' dst route' active r)
        × (r.forwarded ≡ p.forwarded ++ forwarded_as p route' e ∷ [])
  unfolding send_packet_from_queue forward
  send_packet_from_queue-forgets fuel fuel' dst route route' oif e rest p c h g s t m = (
    passed_over inactive_forwarded e rest p,
    let_through route' e rest p,
    drain-mismatch fuel dst route oif e rest p c h g s t m,
    refl,
    refl,
    rw (==_refl e.packet.pointer) refl,
    drain-passed_over fuel' dst route' e rest p g,
    refl,
  )
