-- ===== src/Protocol/System/Exchange.antt =====
-- model/bsdvr.cc: what a message of one node does to another, from the timer or the change of the one over
-- the wire to RecvBsdv of the other.
use mathlib.Core.List.{Mem, mem-append_right}
use bsdvr_ns.Base.{
  ◌+◌, ◌%◌, Option, false, not, ◌&&◌, ◌||◌, ◌==◌, if◌then◌else◌, found, [], ◌∷◌, ◌++◌, Option-cases,
  inl, inr, ℕ, ◌∙◌, ap, ◌≡◌, ◌<◌, ◌^◌, arith, refl, true, some, and_then, IfSome-of, Returns,
}
use bsdvr_ns.Base.Map.{find}
use bsdvr_ns.Net.{Address, InterfaceAddress, World}
use bsdvr_ns.Packet.{Wire, IsWire, UpdateHeader}
use bsdvr_ns.PacketQueue.{ForwardingStatus, Status}
use bsdvr_ns.RoutingTable.{RoutingTableEntry, get_destination, active, state_eq}
use bsdvr_ns.ControlPlane.{is_in}
use bsdvr_ns.ControlPlane.FakeEntries.{entry_at}
use bsdvr_ns.Protocol.Completion.{IsUnasked, recv_update-Returns}
use bsdvr_ns.Protocol.Learn.{learned, learn_update-entry_at}
use bsdvr_ns.Protocol.{
  loopback, find_socket, send_update, update_packet, Protocol, Sent, update_message, hello_message,
}
use bsdvr_ns.Protocol.Handlers.{hello_timer_expire}
use bsdvr_ns.Protocol.Hellos.{hello_of, hellos-Mem}
use bsdvr_ns.Protocol.Receive.{receiver_of, learn_update, recv_bsdv}
use bsdvr_ns.Protocol.Messages.{packet_of, recv_bsdv-serialize}
use bsdvr_ns.Protocol.Completion.{HasReceiver}
use bsdvr_ns.Protocol.Liveness.{hello_timer_expire-Returns}
use bsdvr_ns.Protocol.System.Alive.{Alive, KnowsAddresses}
use bsdvr_ns.Protocol.System.Lasting.{Alive-IsReady, Alive-Reach}
use bsdvr_ns.Protocol.System.Reachable.{Reach-IsLegal}
use bsdvr_ns.Protocol.System.Responding.{receiver_of-HasReceiver}
use bsdvr_ns.Protocol.System.Discovery.{IsMet, recv_hello-IsMet}

module _ (status_of : ForwardingStatus → Status) (b : Wire) (laws : IsWire b) where
  -- A hello that reaches a node that is alive makes its sender a neighbor.
  hello-IsMet :
      {p : Protocol}
      → Alive status_of b p
      → (w : World) (fuel socket : ℕ) (sender l my : Address) (rest : b.Bytes)
      → p.enable_hello ≡ true
      → receiver_of socket p ≡ some my
      → KnowsAddresses w p
      → l < 2 ^ 32
      → Returns (IsMet w l my) (
          recv_bsdv w status_of b fuel socket
            (packet_of b (hello_message (record { origin = l; dst = l })) rest)
            sender
            p)
  hello-IsMet {p} a w fuel socket sender l my rest h z k x =
      let c = Alive-IsReady status_of b a in
      let s =
        IfSome-of (HasReceiver w p.socket_addresses) (receiver_of socket p) my
          (receiver_of-HasReceiver w socket p k c) z in
      let v = Reach-IsLegal status_of b (Alive-Reach status_of b a) in
      let u : UpdateHeader = record { origin = 0; dst = 0; hop_count = 0; binary_state = 0 } in
      let e =
        (recv_bsdv-serialize w status_of b laws fuel socket sender p u
          (record { origin = l; dst = l }) rest (omega arith) (omega arith) (omega arith)
          (omega arith) x x).1 in
      rw (e, z, and_then) (recv_hello-IsMet w p.socket_addresses l my p h s (refl, c) v)

  -- Of two nodes that are alive, whatever the constructor of Status leaves, where the reads of a buffer
  -- return what was written: when the hello timer of the one goes off, no assertion fails, and among what it has
  -- sent is, for each of its sockets, by that socket, a message that makes the one a neighbor of the
  -- other. That is, wherever the packet of that message reaches a socket of the other, as SendHello
  -- made it, RecvBsdv returns there with the address of the one (of 32 bits) among the neighbors that
  -- are neither expired nor marked, and with an entry for it in its own distance vector, of one hop and
  -- out by the interface that the packet came in by. The other has hellos enabled, and the stack knows
  -- the interface of each of its addresses.
  pub hello_timer_expire-recv_bsdv :
      {s p : Protocol}
      → Alive status_of b s
      → Alive status_of b p
      → (v w : World) (jitter : ℕ → ℕ) (socket : ℕ) (iface : InterfaceAddress)
      → find socket s.socket_addresses ≡ some iface
      → iface.local < 2 ^ 32
      → (fuel at : ℕ) (sender my : Address) (rest : b.Bytes) → p.enable_hello ≡ true
      → receiver_of at p ≡ some my
      → KnowsAddresses w p
      → Returns
          (λ r.
            (h : Sent) × Mem h r.sent
            × (h.socket ≡ socket)
            × Returns
                (IsMet w iface.local my)
                (recv_bsdv w status_of b fuel at (packet_of b h.message rest) sender p))
          (hello_timer_expire v jitter s)
  hello_timer_expire-recv_bsdv {s} {p} g a v w jitter socket iface f x fuel at sender my rest h y
        k =
      let c = Alive-IsReady status_of b g in
      let z = (Reach-IsLegal status_of b (Alive-Reach status_of b g)).0.3.0 in
      let (q, e, _, _) = hello_timer_expire-Returns v s.socket_addresses jitter s z (refl, c) in
      let (j, n) = hellos-Mem jitter q.drawn socket iface s.socket_addresses f in
      (
        _,
        e,
        (
          hello_of (jitter j) (socket, iface),
          mem-append_right q.sent n,
          refl,
          hello-IsMet a w fuel at sender iface.local my rest h y k x,
        ),
      )

  -- What SendUpdate says of an entry for the destination.
  abbrev announced : Address → RoutingTableEntry → UpdateHeader
  announced dst e = record {
    origin = e.iface.local;
    dst = dst;
    hop_count = e.hops;
    binary_state = if state_eq e.state active then 1 else 0;
  }

  -- The entry that a node makes of an update about an entry.
  abbrev taken_over : World → Address → RoutingTableEntry → Protocol → RoutingTableEntry
  taken_over w my e p = record {
    hops = (e.hops + 1) % 2 ^ 8;
    ipv4_route = p.routing_table.routes.fresh;
    iface = w.address_of (w.interface_for_address my);
    state = e.state;
    entries_changed = false;
  }

  -- What a node holds of a sender's route to `d` once an update about the sender's entry reached it.
  abbrev recorded :
      (w : World) (sender my dst d : Address) (e : RoutingTableEntry) (p : Protocol)
      → Option RoutingTableEntry
  recorded w sender my dst d e p =
      let t = p.routing_table in
      let old = entry_at sender d t.distance_vector_table in
      if is_in sender p.nb.nb && found (find sender t.distance_vector_table)
      then old
      else if dst == d
      then some (taken_over w my e p)
      else old

  update-recorded :
      {p : Protocol}
      → Alive status_of b p
      → (w : World) (fuel at : ℕ) (sender my dst d : Address) (e : RoutingTableEntry)
        (rest : b.Bytes)
      → e.iface.local < 2 ^ 32
      → dst < 2 ^ 32
      → e.hops < 2 ^ 8
      → receiver_of at p ≡ some my
      → KnowsAddresses w p
      → (state_eq e.state active || not (dst == loopback)) ≡ true
      → IsUnasked p (learn_update w (announced dst e) my sender p).1.routing_table
      → Returns
          (λ q.
            entry_at sender d q.routing_table.distance_vector_table
            ≡ recorded w sender my dst d e p)
          (recv_bsdv w status_of b fuel at
            (packet_of b (update_message (announced dst e)) rest)
            sender
            p)
  update-recorded {p} a w fuel at sender my dst d e rest o x h z k n l =
      let c = Alive-IsReady status_of b a in
      let s =
        IfSome-of (HasReceiver w p.socket_addresses) (receiver_of at p) my
          (receiver_of-HasReceiver w at p k c) z in
      let v = Reach-IsLegal status_of b (Alive-Reach status_of b a) in
      let u = announced dst e in
      let f : u.binary_state < 2 ^ 32 = ground arith in
      let hostile : (u.binary_state == 0 && dst == loopback) ≡ false = ground (arith, n) in
      let y =
        (recv_bsdv-serialize w status_of b laws fuel at sender p u (record { origin = 0; dst = 0 })
          rest o x (omega (arith, h)) f (omega arith) (omega arith)).0 in
      let (q, r, (t, _, _, _)) =
        recv_update-Returns w status_of p.socket_addresses fuel u my sender p s (refl, c) hostile
          l in
      let g : learned w u my p ≡ taken_over w my e p = ground arith in
      (
        q,
        y ∙ rw (z, and_then) r,
        ap (λ x. entry_at sender d x.distance_vector_table) t
            ∙ (learn_update-entry_at w u my sender d p v.0.0.0.0 ∙ rw g refl),
      )

  -- An update that SendUpdate makes of an active entry, or of an inactive one for another destination
  -- than the loopback address, where the entry's interface has a socket, is sent to the neighbor by that
  -- socket. It is answered by a node that is alive, whatever the constructor of Status leaves, where the
  -- reads of a buffer return what was written, the addresses of the entry have 32 bits and its hops 8,
  -- the stack knows the interface of each of the node's addresses, and no packet that the node has
  -- buffered is for a destination of the forwarding table that the update leads to: RecvBsdv returns at
  -- whichever of its sockets the packet comes to. The node's distance vector for the sender then holds
  -- the route with its destination and state and with one hop more, in 8 bits, out by the interface that
  -- the packet came in by, and all its other routes as before. But where the sender is a neighbor and has
  -- a distance vector already, nothing in that vector has changed.
  pub send_update-recv_bsdv :
      {p : Protocol}
      → Alive status_of b p
      → (s : Protocol) (e : RoutingTableEntry) (ne : Address)
      → found (find_socket e.iface s.socket_addresses) ≡ true
      → e.iface.local < 2 ^ 32
      → get_destination s.routing_table.routes e < 2 ^ 32
      → e.hops < 2 ^ 8
      → (state_eq e.state active || not (get_destination s.routing_table.routes e == loopback))
        ≡ true
      → (w : World) (fuel at : ℕ) (sender my d : Address) (rest : b.Bytes)
      → receiver_of at p ≡ some my
      → KnowsAddresses w p
      → IsUnasked p
          (learn_update w
            (announced (get_destination s.routing_table.routes e) e)
            my
            sender
            p).1.routing_table
      → Returns
          (λ r.
            (u : Sent) × (r.sent ≡ s.sent ++ u ∷ [])
            × (u.receiver ≡ ne)
            × (find_socket e.iface s.socket_addresses ≡ some u.socket)
            × Returns
                (λ q.
                  entry_at sender d q.routing_table.distance_vector_table
                  ≡ recorded w sender my (get_destination s.routing_table.routes e) d e p)
                (recv_bsdv w status_of b fuel at (packet_of b u.message rest) sender p))
          (send_update e ne s)
  unfolding send_update
  send_update-recv_bsdv a s e ne f o x h n w fuel at sender my d rest z k l =
      let dst = get_destination s.routing_table.routes e in
      elim (Option-cases (find_socket e.iface s.socket_addresses)) [
        | inl y ↦ absurd (ground (arith, y, f))
        | inr (socket, y) ↦ (
          record s { sent = s.sent ++ update_packet s e ne socket ∷ [] },
          rw (y, send_update) refl,
          (
            update_packet s e ne socket,
            refl,
            refl,
            y,
            update-recorded a w fuel at sender my dst d e rest o x h z k n l,
          ),
        )
      ]
