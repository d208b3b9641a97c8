-- ===== src/Protocol/Liveness.antt =====
-- model/bsdvr.cc: that HelloTimerExpire and RecvHello return.
use bsdvr_ns.Base.{
  Bool, ℕ, ◌+◌, ◌≡◌, refl, false, some, ◌++◌, ◌==◌, All, length, if-both, option-both, Returns,
  reject, if◌then◌else◌,
}
use bsdvr_ns.Base.Map.{Map, find, find-All, assign-All, insert-All}
use bsdvr_ns.Net.{Routes, Address, InterfaceAddress, World}
use bsdvr_ns.RoutingTable.{
  RoutingTable, RoutingTableEntry, Entries, add_route, get_destination, new_entry, lookup_route,
}
use bsdvr_ns.RoutingTable as Table
use bsdvr_ns.Neighbors.{close_neighbor}
use bsdvr_ns.Packet.{HelloHeader}
use bsdvr_ns.ControlPlane.Every.{IsVectorOf}
use bsdvr_ns.Protocol.{Protocol, compute_changes}
use bsdvr_ns.Protocol.Handlers.{
  hello_timer_expire, vector_of, set_vector, meet, greet, refresh_route, learn_neighbor,
  process_hello, recv_hello, update_neighbor,
}
use bsdvr_ns.Protocol.Hellos.{hellos, hello_timer_expire_lem}
use bsdvr_ns.Protocol.Sends.{
  GoesOut, all_sent, introduces, having_sent, send_triggered_update_to_neighbor_lem,
}
use bsdvr_ns.Protocol.Sendable.{IsReady, Keeps, with_tables, with_sent, compute_changes-IsReady}
use bsdvr_ns.Protocol.Completion.{HasReceiver}
use bsdvr_ns.Protocol.Failures.{purge_neighbors-Returns, update_neighbor-Returns}

pub vector_of-All :
    (P : Address × RoutingTableEntry → Type 0) (n : Address) (t : RoutingTable)
    → All (IsVectorOf P) t.distance_vector_table
    → All P (vector_of n t)
vector_of-All P n t v =
    option-both (All P) (find n t.distance_vector_table) (λ _. tt)
      (λ dv z. find-All (IsVectorOf P) n dv t.distance_vector_table v z)

add_route-All :
    (P : Address × RoutingTableEntry → Type 0) (h : Routes) (e : RoutingTableEntry) (m : Entries)
    → P (get_destination h e, e)
    → All P m
    → All P (add_route h e m).0
unfolding add_route
add_route-All P h e m i a =
    option-both (λ (x : Entries × Bool). All P x.0) (find (get_destination h e) m)
      (λ _. insert-All P (get_destination h e) e m i a) (λ x _. a)

update-All :
    (P : Address × RoutingTableEntry → Type 0) (h : Routes) (e : RoutingTableEntry) (m : Entries)
    → P (get_destination h e, e)
    → All P m
    → All P (Table.update h e m).0
unfolding Table.update
update-All P h e m i a =
    option-both (λ (x : Entries × Bool). All P x.0) (find (get_destination h e) m) (λ _. a)
      (λ x _. assign-All P (get_destination h e) e m i a)

module _ (w : World) (m : Map InterfaceAddress) where
  -- The state after the hellos.
  abbrev pub greeted : (ℕ → ℕ) → Protocol → Protocol
  greeted jitter q = record q {
    sent = q.sent ++ hellos jitter q.drawn m;
    drawn = q.drawn + length m;
    htimer = record { delay = q.htimer.delay; expires = some (w.now + q.hello_interval) };
    last_bcast_time = 0;
  }

  greeted-IsReady : (jitter : ℕ → ℕ) (q : Protocol) → IsReady q → IsReady (greeted jitter q)
  greeted-IsReady jitter q r = record {
    sends = r.sends;
    replies = r.replies;
    others = r.others;
    partners = r.partners;
    with_ipv4 = r.with_ipv4;
    with_lo = r.with_lo;
    buffer = r.buffer;
  }

  -- Where the node is ready with the sockets of `m`, and the time of the last broadcast is 0,
  -- HelloTimerExpire returns, with the neighbors left that are neither expired nor marked: the
  -- callbacks for the others fail no assertion. Last it sends one hello by each socket, with a jitter
  -- of its own, in the order of the sockets, and sets the timer again to the hello interval. The time
  -- of the last broadcast is 0, and the node is ready with the same sockets, so that the next expiry
  -- does it again.
  pub hello_timer_expire-Returns :
      (jitter : ℕ → ℕ) (p : Protocol)
      → p.last_bcast_time ≡ 0
      → Keeps m p
      → (q : Protocol) × (hello_timer_expire w jitter p ≡ some (greeted jitter q))
        × Keeps m (greeted jitter q)
        × (q.nb.nb ≡ reject (close_neighbor w) p.nb.nb)
  hello_timer_expire-Returns jitter p z c =
      let (q, e, ((y, k), n)) = purge_neighbors-Returns w m p c in
      (q, rw⁻¹ y (hello_timer_expire_lem w jitter p q z e), (y, greeted-IsReady jitter q k), n)

  pub meet-Keeps :
      (origin receiver : Address) (p : Protocol)
      → HasReceiver w m receiver
      → Keeps m p
      → Keeps m (meet w origin receiver p)
  unfolding meet new_entry compute_changes
  meet-Keeps origin receiver p s (z, r) =
      let u = p.routing_table in
      let i = w.interface_for_address receiver in
      let (e, h) = new_entry (w.net_device i) origin (w.address_of i) 1 origin false u.routes in
      let P = GoesOut p in
      let (f, v, l) = r.sends in
      let j : P (origin, e) = rw z s in
      let dv = add_route-All P h e (vector_of origin u) j (vector_of-All P origin u v) in
      let t = set_vector origin (add_route h e (vector_of origin u)).0 (record u { routes = h }) in
      let k =
        with_tables p t r (f, assign-All (IsVectorOf P) origin _ u.distance_vector_table dv v, l) in
      (z, (compute_changes-IsReady w (record p { routing_table = t }) k).0)

  refresh_route-Keeps :
      (origin receiver : Address) (e : RoutingTableEntry) (p : Protocol)
      → HasReceiver w m receiver
      → Keeps m p
      → Keeps m (refresh_route w origin receiver e p)
  unfolding refresh_route
  refresh_route-Keeps origin receiver e p s (z, r) =
      let u = p.routing_table in
      let P = GoesOut p in
      let (f, v, l) = r.sends in
      let e' = record e { iface = w.address_of (w.interface_for_address receiver); hops = 1 } in
      let j : P (origin, e') = rw z s in
      let dv = update-All P _ e' (vector_of origin u) j (vector_of-All P origin u v) in
      (z, with_tables p _ r (f, assign-All (IsVectorOf P) origin _ u.distance_vector_table dv v, l))

  learn_neighbor-Returns :
      (origin receiver : Address) (p : Protocol)
      → HasReceiver w m receiver
      → Keeps m p
      → Returns (Keeps m) (learn_neighbor w origin receiver p)
  unfolding learn_neighbor greet
  learn_neighbor-Returns origin receiver p s c =
      option-both (Returns (Keeps m)) (lookup_route origin (vector_of origin p.routing_table))
        (λ _.
          let q = meet w origin receiver p in
          let (z, k) = meet-Keeps origin receiver p s c in
          (
            having_sent q (all_sent (introduces w q origin) q.routing_table.forwarding_table),
            send_triggered_update_to_neighbor_lem w origin q k.sends.0,
            (z, with_sent q _ k),
          ))
        (λ e _.
          (refresh_route w origin receiver e p, refl, refresh_route-Keeps origin receiver e p s c))

  -- Where the node is ready with the sockets of `m`, and the receiver's interface has one of them,
  -- RecvHello returns for every hello: neither the callbacks on neighbors that are gone nor the
  -- updates to a new neighbor fail an assertion. Afterwards the node is ready with the same sockets.
  pub recv_hello-Returns :
      (hl : HelloHeader) (my : Address) (p : Protocol)
      → HasReceiver w m my
      → Keeps m p
      → Returns (Keeps m) (recv_hello w hl my p)
  unfolding recv_hello process_hello
  recv_hello-Returns hl my p s c =
      let P = Returns (Keeps m) in
      let first : P
          (if p.enable_hello then update_neighbor w hl.origin p.hello_interval p else some p) =
        if-both P p.enable_hello (λ _. update_neighbor-Returns w m hl.origin p.hello_interval p c)
          (λ _. (p, refl, c)) in
      let (q, e, k) = first in
      if-both P (hl.dst == hl.origin) (λ _. rw e (learn_neighbor-Returns hl.origin my q s k))
        (λ _. (p, refl, c))
