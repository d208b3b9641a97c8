-- ===== src/Protocol/Data/Input.antt =====
-- model/bsdvr.cc: the callbacks that RouteInput calls for a packet.
use bsdvr_ns.Base.{
  ◌==◌, ==_iff, ==_refl, length, any, any-append, ℕ, ◌+◌, ◌^◌, ◌≤◌, ◌<◌, ◌≡◌, ◌⊎◌, refl, Bool, true,
  false, not, ◌&&◌, ◌||◌, Option, none, some, List, [], ◌∷◌, ◌++◌, found, ltb, All, arith,
  Option-cases, Bool-cases, inl, inr, if-both,
}
use bsdvr_ns.Base.Map.{find}
use bsdvr_ns.Net.{World}
use bsdvr_ns.RoutingTable.{RoutingTableEntry, lookup_route}
use bsdvr_ns.PacketQueue.{
  not_forwarded, PacketQueue, QueueEntry, is_duplicate, drop_policy, enqueue, ForwardingStatus,
  Status, Ipv4Header, Packet,
}
use bsdvr_ns.Protocol.{Protocol}
use bsdvr_ns.Protocol.Data.{
  error_noroutetohost, Call, deliver_call, error_call, forward_call, is_empty, is_my_own_address,
  forwarding, deliver, is_broadcast_here, forward_broadcast, receive_packet, is_lo,
  deferred_route_output, route_input,
}

-- How many calls give the packet to the node itself, or report an error, and how many forward it.
abbrev pub locals : List Call → ℕ
locals [] = 0
locals (deliver_call _ _ _ ∷ c) = locals c + 1
locals (error_call _ _ _ ∷ c) = locals c + 1
locals (forward_call _ _ _ _ ∷ c) = locals c

abbrev pub forwards : List Call → ℕ
forwards [] = 0
forwards (deliver_call _ _ _ ∷ c) = forwards c
forwards (error_call _ _ _ ∷ c) = forwards c
forwards (forward_call _ _ _ _ ∷ c) = forwards c + 1

module _ (w : World) (packet : Packet) (header : Ipv4Header) (iif ucb : ℕ) (lcb : Option ℕ)
    (ecb : ℕ) (p : Protocol) where
  -- A call that a packet may cause: the delivery of the packet, an error about it, or its forwarding,
  -- or that of a copy, with its header and along the forwarding table's route to its destination.
  abbrev pub IsProper : Call → Type 0
  IsProper (deliver_call cb pk i) = (lcb ≡ some cb) × (pk ≡ packet) × (i ≡ iif)
  IsProper (error_call cb pk err) = (cb ≡ ecb) × (pk ≡ packet) × (err ≡ error_noroutetohost)
  IsProper (forward_call cb route pk h) =
      (cb ≡ ucb)
      × (h ≡ header)
      × (pk.uid ≡ packet.uid)
      × (e : RoutingTableEntry) × (find header.destination p.routing_table.forwarding_table
          ≡ some e)
      × (route ≡ e.ipv4_route)

  -- The calls are proper, at most one of each kind, and none for a packet that is not taken.
  abbrev pub AreProper : Bool × List Call → Type 0
  AreProper (taken, calls) =
      All IsProper calls × (locals calls ≤ 1) × (forwards calls ≤ 1) × (taken ≡ false → calls ≡ [])

deliver-AreProper :
    (w : World) (packet : Packet) (header : Ipv4Header) (iif ucb : ℕ) (lcb : Option ℕ) (ecb : ℕ)
    (p : Protocol)
    → AreProper w packet header iif ucb lcb ecb p (true, deliver lcb ecb packet iif)
deliver-AreProper w packet header iif ucb none ecb p =
    (((refl, refl, refl), tt), omega arith, omega arith, λ c. cc)
deliver-AreProper w packet header iif ucb (some cb) ecb p =
    (((refl, refl, refl), tt), omega arith, omega arith, λ c. cc)

module _ (w : World) (packet : Packet) (header : Ipv4Header) (iif ucb : ℕ) (lcb : Option ℕ)
    (ecb : ℕ) (p : Protocol) where
  abbrev Proper : Bool × List Call → Type 0
  Proper = AreProper w packet header iif ucb lcb ecb p

  abbrev IsForward : List Call → Type 0
  IsForward calls =
      All (IsProper w packet header iif ucb lcb ecb p) calls
      × (locals calls ≡ 0)
      × (forwards calls ≤ 1)

  forwarding-IsForward :
      (pk : Packet) → pk.uid ≡ packet.uid → IsForward (forwarding pk header ucb p).1
  unfolding forwarding lookup_route
  forwarding-IsForward pk h =
      elim (Option-cases (find header.destination p.routing_table.forwarding_table)) [
        | inl z ↦ rw (z, forwarding) (tt, refl, omega arith)
        | inr (e, z) ↦ rw (z, forwarding) (((refl, refl, h, e, z, refl), tt), refl, omega arith)
      ]

  forwarding-Proper : Proper (forwarding packet header ucb p)
  unfolding forwarding lookup_route
  forwarding-Proper =
      elim (Option-cases (find header.destination p.routing_table.forwarding_table)) [
        | inl z ↦ rw (z, forwarding) (tt, omega arith, omega arith, λ c. refl)
        | inr (e, z) ↦
            rw (z, forwarding)
              (((refl, refl, refl, e, z, refl), tt), omega arith, omega arith, λ c. cc)
      ]

  forward_broadcast-IsForward : IsForward (forward_broadcast w packet header ucb p)
  unfolding forward_broadcast
  forward_broadcast-IsForward =
      let none_forwarded : IsForward [] = (tt, refl, omega arith) in
      let copy = record packet { pointer = w.copy_of packet.pointer } in
      let forwarded : IsForward (forwarding copy header ucb p).1 = forwarding-IsForward copy refl in
      ground (arith, none_forwarded, forwarded)

deliver-forward-AreProper :
    (w : World) (packet : Packet) (header : Ipv4Header) (iif ucb : ℕ) (lcb : Option ℕ) (ecb : ℕ)
    (p : Protocol) (calls : List Call)
    → IsForward w packet header iif ucb lcb ecb p calls
    → AreProper w packet header iif ucb lcb ecb p (true, deliver lcb ecb packet iif ++ calls)
deliver-forward-AreProper w packet header iif ucb none ecb p calls (a, l, f) =
    (((refl, refl, refl), a), omega (arith, l), f, λ c. cc)
deliver-forward-AreProper w packet header iif ucb (some cb) ecb p calls (a, l, f) =
    (((refl, refl, refl), a), omega (arith, l), f, λ c. cc)

-- Packets that RouteInput gives to nobody: the node's own, and multicast ones.
abbrev pub is_ignored : World → Ipv4Header → Protocol → Bool
is_ignored w header p =
    is_my_own_address header.source p.socket_addresses || w.is_multicast header.destination

-- Whether a packet is taken for one that RouteOutput sent to the loopback device.
abbrev pub is_deferred : ℕ → Packet → Protocol → Bool
is_deferred idev packet p = is_lo idev p.lo && found (p.tag_of packet.pointer)

module _ (w : World) (packet : Packet) (header : Ipv4Header) (iif ucb : ℕ) (lcb : Option ℕ)
    (ecb : ℕ) (p : Protocol) where
  receive_packet-multicast :
      w.is_multicast header.destination ≡ true
      → (receive_packet w packet header iif ucb lcb ecb p).1 ≡ []
  unfolding receive_packet
  receive_packet-multicast h = rw (h, receive_packet)

  receive_packet-AreProper :
      AreProper w packet header iif ucb lcb ecb p (receive_packet w packet header iif ucb lcb ecb p)
  unfolding receive_packet
  receive_packet-AreProper =
      let P = AreProper w packet header iif ucb lcb ecb p in
      let nothing : P (false, []) = (tt, omega arith, omega arith, λ c. refl) in
      let refused : P (true, error_call ecb packet error_noroutetohost ∷ []) =
        deliver-AreProper w packet header iif ucb none ecb p in
      let local : P (true, deliver lcb ecb packet iif) =
        deliver-AreProper w packet header iif ucb lcb ecb p in
      let both : P (true, deliver lcb ecb packet iif ++ forward_broadcast w packet header ucb p) =
        deliver-forward-AreProper w packet header iif ucb lcb ecb p
          (forward_broadcast w packet header ucb p)
          (forward_broadcast-IsForward w packet header iif ucb lcb ecb p) in
      let forwarded : P (forwarding packet header ucb p) =
        forwarding-Proper w packet header iif ucb lcb ecb p in
      if-both P (w.is_multicast header.destination) (λ _. nothing)
        (λ _.
          if-both P (is_broadcast_here w header.destination iif p.socket_addresses) (λ _. both)
            (λ _.
              if-both P (w.is_destination_address header.destination iif) (λ _. local)
                (λ _. if-both P (not (w.is_forwarding iif)) (λ _. refused) (λ _. forwarded))))

module _ (status_of : ForwardingStatus → Status) (w : World) (packet : Packet) (header : Ipv4Header)
    (idev ucb : ℕ) (lcb : Option ℕ) (ecb : ℕ) (p : Protocol) where
  -- Nothing but the buffer has changed, and it has the packet, or it is full, with nothing to drop.
  abbrev pub Buffered : Protocol → Type 0
  Buffered q =
      (buffer : PacketQueue) × (q ≡ record p { queue = buffer })
      × ((any (λ i. i.packet.uid == packet.uid && i.header.destination == header.destination)
              buffer.queue
            ≡ true)
          ⊎ ((buffer ≡ p.queue)
              × (length p.queue.queue ≡ p.queue.max_len)
              × (drop_policy status_of p.queue.queue ≡ none)))

  deferred-Buffered : Buffered (deferred_route_output status_of packet header ucb ecb p)
  unfolding deferred_route_output enqueue
  deferred-Buffered =
      let e : QueueEntry = record {
        packet = packet;
        status = status_of not_forwarded;
        header = header;
        ucb = ucb;
        ecb = ecb;
      } in
      let last : (q : List QueueEntry) → any (is_duplicate e) (q ++ e ∷ []) ≡ true = λ q. ground (
        arith,
        any-append (is_duplicate e) q (e ∷ []),
        ==_refl packet.uid,
        ==_refl header.destination,
      ) in
      elim (Bool-cases (any (is_duplicate e) p.queue.queue)) [
        | inl d ↦ (p.queue, rw d refl, inl d)
        | inr d ↦ elim (Bool-cases (length p.queue.queue == p.queue.max_len)) [
          | inr f ↦ (
            record p.queue { queue = p.queue.queue ++ e ∷ [] },
            rw (d, f) refl,
            inl (last p.queue.queue),
          )
          | inl f ↦ elim (Option-cases (drop_policy status_of p.queue.queue)) [
            | inl z ↦ (p.queue, rw (d, f, z) refl, inr (refl, (==_iff _ _).0 f, z))
            | inr (r, z) ↦ (record p.queue { queue = r ++ e ∷ [] }, rw (d, f, z) refl, inl (last r))
          ]
        ]
      ]

  -- What RouteInput returns and leaves. The last two conditions: a packet that was deferred calls
  -- nobody and is buffered, and nothing else ever changes the state.
  abbrev pub Handled : Bool × List Call × Protocol → Type 0
  Handled (taken, calls, q) =
      AreProper w packet header (w.interface_for_device idev) ucb lcb ecb p (taken, calls)
      × (is_ignored w header p ≡ true → calls ≡ [])
      × (((q ≡ p) × (is_empty p.socket_addresses || not (is_deferred idev packet p) ≡ true))
          ⊎ ((is_empty p.socket_addresses || not (is_deferred idev packet p) ≡ false)
              × (taken ≡ true)
              × (calls ≡ [])
              × Buffered q))

  -- On a node with IP, and for a device with an interface, RouteInput returns. A packet with a
  -- DeferredRouteOutputTag that comes from the loopback device stands in the buffer then, without a call
  -- of a callback, if the node has a socket, unless the buffer is as it was, of its maximum length and
  -- without a packet that DropPolicy drops; nothing else of the state changes, and nothing for any other
  -- packet. The callbacks are
  -- called for none of the node's own packets and for no multicast packet. For any other they are
  -- called at most once to deliver the packet or to report an error about it, and at most once to
  -- forward it or its copy, with the same header and along the forwarding table's route to its
  -- destination; and not at all if the answer is false.
  pub route_input-Handled :
      p.has_ipv4 ≡ true
      → w.interface_for_device idev < 2 ^ 31
      → (o : Bool × List Call × Protocol) × (route_input status_of w packet header idev ucb lcb ecb
            p
          ≡ some o)
        × Handled o
  unfolding route_input receive_packet
  route_input-Handled i d =
      let iif = w.interface_for_device idev in
      let z : (not p.has_ipv4 || not (ltb iif (2 ^ 31))) ≡ false = ground arith in
      elim (Bool-cases (is_empty p.socket_addresses)) [
        | inl e ↦ (
          (false, [], p),
          rw (e, route_input),
          ((tt, omega arith, omega arith, λ c. refl), λ c. refl, inl (refl, rw e)),
        )
        | inr e ↦ elim (Bool-cases (is_deferred idev packet p)) [
          | inl t ↦ (
            (true, [], deferred_route_output status_of packet header ucb ecb p),
            rw (e, z, t, route_input),
            (
              (tt, omega arith, omega arith, λ c. refl),
              λ c. refl,
              inr (rw (e, t), refl, refl, deferred-Buffered),
            ),
          )
          | inr t ↦ elim (Bool-cases (is_my_own_address header.source p.socket_addresses)) [
            | inl m ↦ (
              (true, [], p),
              rw (e, z, t, m, route_input),
              ((tt, omega arith, omega arith, λ c. refl), λ c. refl, inl (refl, rw (e, t))),
            )
            | inr m ↦
                let (taken, calls) = receive_packet w packet header iif ucb lcb ecb p in
                (
                  (taken, calls, p),
                  rw (e, z, t, m, route_input),
                  (
                    receive_packet-AreProper w packet header iif ucb lcb ecb p,
                    λ c.
                        receive_packet-multicast w packet header iif ucb lcb ecb p
                          (ground (arith, c, m)),
                    inl (refl, rw (e, t)),
                  ),
                )
          ]
        ]
      ]
