-- ===== src/Protocol/System/Responding.antt =====
-- model/bsdvr.cc: that a node that keeps its interfaces answers every event.
use bsdvr_ns.Base.{
  IfSome, IfSome-of, IfSome-map, not, length, ℕ, ◌≡◌, refl, true, false, some, [], ◌∷◌, ◌==◌, ltb,
  found, length, map, arith, if-both, option-both, IfSome, IfSome-of, Returns, Option-cases,
  Bool-cases, inl, inr, for_each, for_each_inv, if◌then◌else◌, and_then,
}
use bsdvr_ns.Base.Map.{Map, find, find-All}
use bsdvr_ns.Net.{Address, InterfaceAddress, World}
use bsdvr_ns.Neighbors.{purge, mark_closed, process_tx_error}
use bsdvr_ns.Packet.{
  Wire, MessageType, type_hello, type_update, new_type_header, deserialize_type, deserialize_update,
  deserialize_hello,
}
use bsdvr_ns.PacketQueue.{ForwardingStatus, Status}
use bsdvr_ns.Protocol.{Protocol, find_socket}
use bsdvr_ns.Protocol.Handlers.{
  on_link_failure, restart_htimer, hello_timer_expire, send_hello, hello_to,
}
use bsdvr_ns.Protocol.Receive.{receiver_of, dispatch, recv_bsdv}
use bsdvr_ns.Protocol.Interfaces.{notify_tx_error}
use bsdvr_ns.Protocol.Interfaces.Sockets.{iface_eq_refl}
use bsdvr_ns.Protocol.Sendable.{HasPartner, IsReady}
use bsdvr_ns.Protocol.Completion.{HasReceiver, Flushed, recv_update-Flushed, recv_update-Returns}
use bsdvr_ns.Protocol.Failures.{with_nb, purge-Returns, purge_neighbors-Returns}
use bsdvr_ns.Protocol.Liveness.{recv_hello-Returns}
use bsdvr_ns.Protocol.Receive.{recv_update, learn_update}
use bsdvr_ns.Protocol.System.Alive.{
  has_header, IsIdle, is_hostile, IsAt, KnowsAddresses, denies_loopback, Event, hello_timer,
  neighbor_timer, lost_frame, packet_for, handle, IsFit,
}
use bsdvr_ns.Protocol.System.Staying.{same-IsReady}

find-found :
    (s : ℕ) (iface : InterfaceAddress) (m : Map InterfaceAddress)
    → find s m ≡ some iface
    → found (find_socket iface m) ≡ true
unfolding find find_socket
find-found s iface [] h = cc
find-found s iface ((t, x) ∷ m) h = elim (Bool-cases (t == s)) [
  | inl e ↦ let z : x ≡ iface = ground (arith, e, h) in rw z (ground (arith, iface_eq_refl iface))
  | inr e ↦ ground (arith, e, find-found s iface m (ground (arith, e, h)))
]

-- The address that a socket receives for has a socket.
module _ (w : World) where
  known-HasReceiver :
      (iface : InterfaceAddress) (p : Protocol)
      → w.address_of (w.interface_for_address iface.local) ≡ iface
      → found (find_socket iface p.socket_addresses) ≡ true
      → HasReceiver w p.socket_addresses iface.local
  known-HasReceiver iface p e h = rw e h

  pub receiver_of-HasReceiver :
      (socket : ℕ) (p : Protocol)
      → KnowsAddresses w p
      → IsReady p
      → IfSome (HasReceiver w p.socket_addresses) (receiver_of socket p)
  receiver_of-HasReceiver socket p (a, b) r =
      let P = IfSome (HasReceiver w p.socket_addresses) in
      option-both P (find socket p.socket_addresses)
        (λ _.
          option-both P (find socket p.socket_broadcast_addresses) (λ _. tt)
            (λ iface z.
              known-HasReceiver iface p
                (find-All (IsAt w) socket iface p.socket_broadcast_addresses b z)
                (find-All (HasPartner p) socket iface p.socket_broadcast_addresses r.partners z)))
        (λ iface z.
          known-HasReceiver iface p (find-All (IsAt w) socket iface p.socket_addresses a z)
            (find-found socket iface p.socket_addresses z))

  hello_to-IsReady :
      (jitter : ℕ → ℕ) (x : Address × InterfaceAddress) (p : Protocol)
      → IsReady p
      → IsReady (hello_to jitter x p)
  unfolding hello_to
  hello_to-IsReady jitter (socket, iface) p r =
      same-IsReady p _ refl refl refl refl refl refl refl r

  restart_htimer-IsReady :
      (offset : ℕ) (p : Protocol) → IsReady p → IsReady (restart_htimer w offset p)
  unfolding restart_htimer
  restart_htimer-IsReady offset p r = same-IsReady p _ refl refl refl refl refl refl refl r

  expiry-Returns :
      (jitter : ℕ → ℕ) (p : Protocol) → IsReady p → Returns IsReady (hello_timer_expire w jitter p)
  unfolding hello_timer_expire send_hello
  expiry-Returns jitter p r =
      if-both (Returns IsReady) (ltb 0 p.last_bcast_time)
        (λ _. (_, refl, restart_htimer-IsReady _ p r))
        (λ _.
          let (q, e, ((_, k), _)) = purge_neighbors-Returns w p.socket_addresses p (refl, r) in
          (
            restart_htimer w 0 (for_each (hello_to jitter) q.socket_addresses q),
            rw e refl,
            restart_htimer-IsReady 0 _ (
                for_each_inv IsReady (hello_to jitter) (hello_to-IsReady jitter) q.socket_addresses
                  q k),
          ))

  pub notify_tx_error-Returns :
      (mac : ℕ) (p : Protocol) → IsReady p → Returns IsReady (notify_tx_error w mac p)
  unfolding notify_tx_error process_tx_error
  notify_tx_error-Returns mac p r =
      let n = record p.nb { nb = map (mark_closed mac) p.nb.nb } in
      let seen = record p { nb = n } in
      let (q, e, (_, k)) =
        purge-Returns w p.socket_addresses n (some seen) (seen, refl, (refl, with_nb p n r)) in
      (
        record q { nb = (purge w (some (on_link_failure w)) n (some seen)).0 },
        rw e refl,
        with_nb q _ k,
      )

  module _ (status_of : ForwardingStatus → Status) (b : Wire) where
    -- What a packet leaves if it is handled at all, and that it is, if it is whole and no buffered packet
    -- is flushed.
    dispatch-IfSome :
        (fuel : ℕ) (t : MessageType) (rest : b.Bytes) (my src : Address) (p : Protocol)
        → HasReceiver w p.socket_addresses my
        → denies_loopback b t rest ≡ false
        → IsReady p
        → IfSome IsReady (dispatch w status_of b fuel t rest my src p)
    unfolding dispatch
    dispatch-IfSome fuel type_hello rest my src p s d r =
        let (q, e, (_, k)) =
          recv_hello-Returns w p.socket_addresses (deserialize_hello b rest).1 my p s (refl, r) in
        if-both (IfSome IsReady) ((deserialize_hello b rest).0 == 8) (λ _. rw e k) (λ _. tt)
    dispatch-IfSome fuel type_update rest my src p s d r =
        let m = p.socket_addresses in
        let upt = (deserialize_update b rest).1 in
        let F = Flushed (length p.queue.queue) (learn_update w upt my src p).1.routing_table m in
        let o = recv_update w status_of fuel upt my src p in
        let f = recv_update-Flushed w status_of m fuel upt my src p s (refl, r) d in
        if-both (IfSome IsReady) ((deserialize_update b rest).0 == 16)
          (λ _. IfSome-map F IsReady (λ q (_, _, (_, k)). k) o f) (λ _. tt)

    pub recv_bsdv-IfSome :
        (fuel socket : ℕ) (packet : b.Bytes) (sender : Address) (p : Protocol)
        → is_hostile b packet ≡ false
        → KnowsAddresses w p
        → IsReady p
        → IfSome IsReady (recv_bsdv w status_of b fuel socket packet sender p)
    unfolding recv_bsdv
    recv_bsdv-IfSome fuel socket packet sender p h a r =
        elim (Option-cases (receiver_of socket p)) [
          | inl z ↦ rw z tt
          | inr (my, z) ↦
              let s =
                IfSome-of (HasReceiver w p.socket_addresses) (receiver_of socket p) my
                  (receiver_of-HasReceiver socket p a r) z in
              let (dist, t) = deserialize_type b packet (new_type_header type_update) in
              let P = IfSome IsReady in
              rw z (
                if-both P (not (dist == 1)) (λ _. tt)
                  (λ _.
                    if-both P t.valid
                      (λ v.
                        dispatch-IfSome fuel t.message_type (b.read_u8 packet).1 my sender p s
                          (ground (arith, v, h)) r)
                      (λ _. r)))
        ]

    dispatch-Returns :
        (fuel : ℕ) (t : MessageType) (rest : b.Bytes) (my src : Address) (p : Protocol)
        → HasReceiver w p.socket_addresses my
        → has_header b t rest ≡ true
        → denies_loopback b t rest ≡ false
        → IsIdle b w t rest my src p
        → IsReady p
        → Returns IsReady (dispatch w status_of b fuel t rest my src p)
    unfolding dispatch
    dispatch-Returns fuel type_hello rest my src p s y d l r =
        let (q, e, (_, k)) =
          recv_hello-Returns w p.socket_addresses (deserialize_hello b rest).1 my p s (refl, r) in
        (q, rw y e, k)
    dispatch-Returns fuel type_update rest my src p s y d l r =
        let upt = (deserialize_update b rest).1 in
        let (q, e, (_, _, _, (_, k))) =
          recv_update-Returns w status_of p.socket_addresses fuel upt my src p s (refl, r) d l in
        (q, rw y e, k)

    pub recv_bsdv-Returns :
        (fuel socket : ℕ) (packet : b.Bytes) (sender : Address) (p : Protocol)
        → IsFit b w (packet_for fuel socket packet sender) p
        → IsReady p
        → Returns IsReady (recv_bsdv w status_of b fuel socket packet sender p)
    unfolding recv_bsdv
    recv_bsdv-Returns fuel socket packet sender p (my, z, y, h, a, l) r =
        let s =
          IfSome-of (HasReceiver w p.socket_addresses) (receiver_of socket p) my
            (receiver_of-HasReceiver socket p a r) z in
        let (dist, t) = deserialize_type b packet (new_type_header type_update) in
        let rest = (b.read_u8 packet).1 in
        let c : not (dist == 1) ≡ false = ground (arith, y) in
        let g : Returns IsReady (
            if t.valid
            then dispatch w status_of b fuel t.message_type rest my sender p
            else some p) =
          if-both (Returns IsReady) t.valid
            (λ v.
              dispatch-Returns fuel t.message_type rest my sender p s (ground (arith, v, y))
                (ground (arith, v, h)) l r)
            (λ _. (p, refl, r)) in
        rw (z, and_then, c) g

    -- A ready node answers every event.
    pub handle-Returns :
        (e : Event b) (p : Protocol)
        → IsFit b w e p
        → IsReady p
        → Returns IsReady (handle status_of b w e p)
    handle-Returns (hello_timer jitter) p f r = expiry-Returns jitter p r
    handle-Returns neighbor_timer p f r =
        let (q, e, ((_, k), _)) = purge_neighbors-Returns w p.socket_addresses p (refl, r) in
        (q, e, k)
    handle-Returns (lost_frame mac) p f r = notify_tx_error-Returns mac p r
    handle-Returns (packet_for fuel socket packet sender) p f r =
        recv_bsdv-Returns fuel socket packet sender p f r
