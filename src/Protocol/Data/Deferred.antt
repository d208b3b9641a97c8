-- ===== src/Protocol/Data/Deferred.antt =====
-- model/bsdvr.cc: the way of a packet without a route, from RouteOutput by way of the loopback device
-- to RouteInput and the buffer.
use bsdvr_ns.Base.{
  ℕ, ◌^◌, ◌<◌, ◌≡◌, true, false, Option, none, some, [], ◌∷◌, ◌++◌, found, ◌==◌, ltb, ==_refl, any,
  length, arith, sym,
}
use bsdvr_ns.Base.Map.{find}
use bsdvr_ns.Net.{World}
use bsdvr_ns.PacketQueue.{
  ForwardingStatus, not_forwarded, Status, Ipv4Header, Packet, QueueEntry, is_duplicate, enqueue,
}
use bsdvr_ns.Protocol.{Protocol}
use bsdvr_ns.Protocol.Data.{
  SocketErrno, error_noterror, is_lo, lo_route, add_packet_tag, is_empty, tag_interface, add_tag,
  route_output, deferred_route_output, route_input,
}
use bsdvr_ns.Protocol.Data.Output.{has_source-some, route_output-IsLooped}
use bsdvr_ns.Protocol.Data.Loopback.{has_source, has_unset, with_route}

-- The buffer's entry for a packet that is deferred.
abbrev pub deferred : (ForwardingStatus → Status) → Packet → Ipv4Header → ℕ → ℕ → QueueEntry
deferred status_of packet header ucb ecb = record {
  packet = packet;
  status = status_of not_forwarded;
  header = header;
  ucb = ucb;
  ecb = ecb;
}

deferred_route_output-queue :
    (status_of : ForwardingStatus → Status) (packet : Packet) (header : Ipv4Header) (ucb ecb : ℕ)
    (p : Protocol)
    → any (is_duplicate (deferred status_of packet header ucb ecb)) p.queue.queue ≡ false
    → length p.queue.queue < p.queue.max_len
    → (deferred_route_output status_of packet header ucb ecb p).queue.queue
      ≡ p.queue.queue ++ deferred status_of packet header ucb ecb ∷ []
unfolding deferred_route_output enqueue
deferred_route_output-queue status_of packet header ucb ecb p h l =
    let z : (length p.queue.queue == p.queue.max_len) ≡ false = ground (arith, l) in
    rw (deferred_route_output, enqueue, h, z)

add_packet_tag-found :
    (packet : ℕ) (oif : Option ℕ) (tags : ℕ → Option (Option ℕ))
    → found (add_packet_tag packet oif tags packet) ≡ true
add_packet_tag-found packet oif tags = ground (arith, ==_refl packet)

route_input-deferred :
    (w : World) (status_of : ForwardingStatus → Status) (packet : Packet) (header : Ipv4Header)
    (ucb : ℕ) (lcb : Option ℕ) (ecb lo : ℕ) (p : Protocol)
    → is_empty p.socket_addresses ≡ false
    → p.lo ≡ some lo
    → p.has_ipv4 ≡ true
    → w.interface_for_device lo < 2 ^ 31
    → found (p.tag_of packet.pointer) ≡ true
    → route_input status_of w packet header lo ucb lcb ecb p
      ≡ some (true, [], deferred_route_output status_of packet header ucb ecb p)
unfolding route_input
route_input-deferred w status_of packet header ucb lcb ecb lo p s l i d t =
    let m : is_lo lo p.lo ≡ true = rw (l, ==_refl lo) in
    let b : ltb (w.interface_for_device lo) (2 ^ 31) ≡ true = ground (arith, d) in
    rw (s, i, b, m, t, route_input)

module _ (w : World) (status_of : ForwardingStatus → Status) (packet : Packet) (header : Ipv4Header)
    (oif : Option ℕ) (err : SocketErrno) (ucb : ℕ) (lcb : Option ℕ) (ecb lo : ℕ)
    (p : Protocol) where
  -- On a node with IP, with a loopback device that has an interface, with a socket on the device
  -- that was asked for, if one was, and with an address for every socket: a packet to a destination
  -- without a route that is not in the buffer, which has room, is sent by RouteOutput to the loopback
  -- device, and when RouteInput gets it from there, it takes it, calls nobody and puts it at the end
  -- of the buffer, not forwarded and with its tag.
  pub route_output-route_input-buffers :
      p.lo ≡ some lo
      → p.has_ipv4 ≡ true
      → w.interface_for_device lo < 2 ^ 31
      → has_source w oif p.socket_addresses ≡ true
      → has_unset w p.socket_addresses ≡ false
      → find header.destination p.routing_table.forwarding_table ≡ none
      → any (is_duplicate (deferred status_of packet header ucb ecb)) p.queue.queue ≡ false
      → length p.queue.queue < p.queue.max_len
      → (route : ℕ) × (q r : Protocol) × (route_output w
            (some packet.pointer)
            header.destination
            oif
            err
            p
          ≡ some (some route, error_noterror, q))
        × ((q.routing_table.routes.route_at route).output_device ≡ lo)
        × (route_input status_of w packet header lo ucb lcb ecb q ≡ some (true, [], r))
        × (r.queue.queue ≡ p.queue.queue ++ deferred status_of packet header ucb ecb ∷ [])
        × (found (r.tag_of packet.pointer) ≡ true)
  unfolding deferred_route_output
  route_output-route_input-buffers l i d h u n fresh room =
      let (route, q, e, (lo', source, l', _, k, z)) =
        route_output-IsLooped w packet.pointer header.destination oif err p (rw l)
          (ground (arith, i)) h u n in
      let o = add_tag packet.pointer (tag_interface w oif) p in
      let q' = with_route (lo_route header.destination source lo) o in
      let m : lo' ≡ lo = ground (arith, l, l') in
      let z' : q ≡ q' = rw (sym m) z in
      (
        route,
        q,
        deferred_route_output status_of packet header ucb ecb q,
        e,
        rw (z', k, ==_refl p.routing_table.routes.fresh),
        rw z' (
            route_input-deferred w status_of packet header ucb lcb ecb lo q'
              (has_source-some w oif p.socket_addresses h) l i d
              (add_packet_tag-found packet.pointer (tag_interface w oif) p.tag_of)),
        rw z' (deferred_route_output-queue status_of packet header ucb ecb q' fresh room),
        rw z' (add_packet_tag-found packet.pointer (tag_interface w oif) p.tag_of),
      )
