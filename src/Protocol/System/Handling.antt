-- ===== src/Protocol/System/Handling.antt =====
-- model/bsdvr.cc: that the handlers of messages and of timers keep the state legal.
use bsdvr_ns.Base.{
  ℕ, ◌-◌, ◌≡◌, refl, sym, subst, Option, some, ltb, for_each_inv, if-both, option-both, IfSome,
  and_then-IfSome,
}
use bsdvr_ns.Base.Map.{IsSorted}
use bsdvr_ns.Net.{Address, InterfaceAddress, World}
use bsdvr_ns.Neighbors.{Neighbor, Neighbors, purge, update_found, process_tx_error, mark_closed}
use bsdvr_ns.Neighbors as Nb
use bsdvr_ns.Neighbors.Laws.{purge-closed, closed}
use bsdvr_ns.Neighbors.Updates.{IsWellFormed}
use bsdvr_ns.Neighbors.Invariant.{operations-IsWellFormed}
use bsdvr_ns.PacketQueue.Bound.{AreDistinct}
use bsdvr_ns.ControlPlane.Legal.{AreLegal}
use bsdvr_ns.Protocol.{Protocol}
use bsdvr_ns.Protocol.Handlers.{
  on_link_failure, with_neighbors, purge_neighbors, update_neighbor, hello_to, send_hello,
  restart_htimer, hello_timer_expire,
}
use bsdvr_ns.Protocol.System.Sending.{IsKept, on_link_failure-IfSome}

-- No broadcast is recorded, and no packet is buffered twice for one destination.
abbrev pub IsQuiet : Protocol → Type 0
IsQuiet p = (p.last_bcast_time ≡ 0) × AreDistinct p.queue.queue

-- The tables are legal, and the maps of sockets are sorted by their keys.
abbrev pub HasLegalTables : Protocol → Type 0
HasLegalTables p =
    AreLegal p.routing_table
    × IsSorted p.socket_addresses
    × IsSorted p.socket_broadcast_addresses
    × IsQuiet p

-- And no neighbor is marked to be closed or stands twice.
abbrev pub IsLegal : Protocol → Type 0
IsLegal p = HasLegalTables p × IsWellFormed p.nb

pub HasLegalTables-IsKept : IsKept HasLegalTables
HasLegalTables-IsKept = record {
  tables = λ p h. h.0;
  keep_tables = λ p t h l. (l, h.1, h.2, h.3);
  keep_sent = λ p s h. h;
}

pub IsLegal-IsKept : IsKept IsLegal
IsLegal-IsKept = record {
  tables = λ p h. h.0.0;
  keep_tables = λ p t h l. ((l, h.0.1, h.0.2, h.0.3), h.1);
  keep_sent = λ p s h. h;
}

module _ (w : World) where
  -- The callbacks that an operation of m_nb makes keep the tables legal.
  pub purge-HasLegalTables :
      (n : Neighbors) (s : Option Protocol)
      → IfSome HasLegalTables s
      → IfSome HasLegalTables (purge w (some (on_link_failure w)) n s).1
  purge-HasLegalTables n s h =
      let e = (purge-closed w (on_link_failure w) n s).2 in
      subst (IfSome HasLegalTables) (sym e) (
        for_each_inv (IfSome HasLegalTables) (on_link_failure w)
          (on_link_failure-IfSome HasLegalTables HasLegalTables-IsKept w) (closed w n.nb) s h)

  pub with_neighbors-IfSome :
      (n : Neighbors) (s : Option Protocol)
      → IfSome HasLegalTables s
      → IsWellFormed n
      → IfSome IsLegal (with_neighbors (n, s))
  with_neighbors-IfSome n s h v = and_then-IfSome HasLegalTables IsLegal s _ h (λ p t. (t, v))

  pub purge_neighbors-IfSome : (p : Protocol) → IsLegal p → IfSome IsLegal (purge_neighbors w p)
  unfolding purge_neighbors
  purge_neighbors-IfSome p (t, v) =
      with_neighbors-IfSome _ _ (purge-HasLegalTables p.nb (some p) t)
        (operations-IsWellFormed w (some (on_link_failure w)) 0 0 0 p.nb (some p) v).0

  update-HasLegalTables :
      (addr : Address) (expire : ℕ) (n : Neighbors) (s : Option Protocol)
      → IfSome HasLegalTables s
      → IfSome HasLegalTables (Nb.update w (some (on_link_failure w)) addr expire n s).1
  unfolding Nb.update
  update-HasLegalTables addr expire n s h =
      option-both (λ (r : Neighbors × Option Protocol). IfSome HasLegalTables r.1)
        (update_found w addr expire n.arp n.nb)
        (λ _. purge-HasLegalTables (Nb.pushed w addr expire n) s h) (λ x _. h)

  pub update_neighbor-IfSome :
      (addr : Address) (expire : ℕ) (p : Protocol)
      → IsLegal p
      → IfSome IsLegal (update_neighbor w addr expire p)
  unfolding update_neighbor
  update_neighbor-IfSome addr expire p (t, v) =
      let seen =
        option-both HasLegalTables (update_found w addr expire p.nb.arp p.nb.nb) (λ _. t)
          (λ x _. t) in
      with_neighbors-IfSome _ _ (update-HasLegalTables addr expire p.nb (some _) seen)
        (operations-IsWellFormed w (some (on_link_failure w)) addr 0 expire p.nb _ v).1

  hello_to-IsLegal :
      (jitter : ℕ → ℕ) (x : Address × InterfaceAddress) (p : Protocol)
      → IsLegal p
      → IsLegal (hello_to jitter x p)
  unfolding hello_to
  hello_to-IsLegal jitter (socket, iface) p h = h

  send_hello-IfSome :
      (jitter : ℕ → ℕ) (p : Protocol) → IsLegal p → IfSome IsLegal (send_hello w jitter p)
  unfolding send_hello
  send_hello-IfSome jitter p h =
      and_then-IfSome IsLegal IsLegal (purge_neighbors w p) _ (purge_neighbors-IfSome p h) (λ q g.
        for_each_inv IsLegal (hello_to jitter) (hello_to-IsLegal jitter) q.socket_addresses q g)

  restart_htimer-IsLegal :
      (offset : ℕ) (p : Protocol) → IsLegal p → IsLegal (restart_htimer w offset p)
  unfolding restart_htimer
  restart_htimer-IsLegal offset p (t, v) = ((t.0, t.1, t.2, (refl, t.3.1)), v)

  pub hello_timer_expire-IfSome :
      (jitter : ℕ → ℕ) (p : Protocol) → IsLegal p → IfSome IsLegal (hello_timer_expire w jitter p)
  unfolding hello_timer_expire
  hello_timer_expire-IfSome jitter p h =
      if-both (IfSome IsLegal) (ltb 0 p.last_bcast_time)
        (λ _. restart_htimer-IsLegal (w.now - p.last_bcast_time) p h)
        (λ _.
          and_then-IfSome IsLegal IsLegal (send_hello w jitter p) _ (send_hello-IfSome jitter p h)
            (restart_htimer-IsLegal 0))
