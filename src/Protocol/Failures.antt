-- ===== src/Protocol/Failures.antt =====
-- model/bsdvr.cc: that SendUpdateOnLinkFailure, and what calls it, returns.
use bsdvr_ns.Base.{
  ℕ, ◌≡◌, refl, Option, none, some, List, [], ◌∷◌, for_each_inv, if-both, option-both, Returns,
  reject, Option-cases, inl, inr,
}
use bsdvr_ns.Base.Map.{Map, find, find-All}
use bsdvr_ns.Net.{Address, InterfaceAddress, World}
use bsdvr_ns.RoutingTable.{inactive, RoutingTableEntry, set_route_state}
use bsdvr_ns.Neighbors.{Neighbor, Neighbors, purge, close_neighbor, update_found}
use bsdvr_ns.Neighbors as Nb
use bsdvr_ns.Neighbors.Laws.{purge-closed, closed}
use bsdvr_ns.ControlPlane.Every.{IsVectorOf}
use bsdvr_ns.Protocol.{
  Protocol, is_filtered, compute_changes, record_failure, fail_route, send_update_on_link_failure,
}
use bsdvr_ns.Protocol.Handlers.{on_link_failure, purge_neighbors, update_neighbor}
use bsdvr_ns.Protocol.Sends.{GoesOut}
use bsdvr_ns.Protocol.Sendable.{
  IsReady, Keeps, send_changes-Keeps, update_distance_vector_table-IsReady, compute_changes-IsReady,
}

-- The neighbors do not matter.
pub with_nb : (p : Protocol) (n : Neighbors) → IsReady p → IsReady (record p { nb = n })
with_nb p n r = record {
  sends = r.sends;
  replies = r.replies;
  others = r.others;
  partners = r.partners;
  with_ipv4 = r.with_ipv4;
  with_lo = r.with_lo;
  buffer = r.buffer;
}

module _ (w : World) (m : Map InterfaceAddress) where
  fail_route-Returns :
      (ne : Address) (e : RoutingTableEntry) (p : Protocol)
      → GoesOut p (ne, e)
      → Keeps m p
      → Returns (Keeps m) (fail_route w ne e p)
  unfolding fail_route record_failure compute_changes
  fail_route-Returns ne e p s (z, r) =
      let rt = set_route_state inactive e in
      let u = update_distance_vector_table-IsReady w ne rt p.routing_table.routes p s r in
      let (k, n) = compute_changes-IsReady w _ u in
      let (changes, q) = record_failure w ne e p in
      let (x, y, (g, _)) = send_changes-Keeps w m changes (ne ∷ []) q (z, k) n in (x, y, g)

  pub send_update_on_link_failure-Returns :
      (ne : Address) (p : Protocol)
      → Keeps m p
      → Returns (Keeps m) (send_update_on_link_failure w ne p)
  unfolding send_update_on_link_failure
  send_update_on_link_failure-Returns ne p c =
      let P = Returns (Keeps m) in
      let same : P (some p) = (p, refl, c) in
      let dvt = p.routing_table.distance_vector_table in
      if-both P (is_filtered ne) (λ _. same)
        (λ _.
          option-both P (find ne dvt) (λ _. same)
            (λ dv z.
              option-both P (find ne dv) (λ _. same)
                (λ e y.
                  let vector = find-All (IsVectorOf (GoesOut p)) ne dv dvt c.1.sends.1 z in
                  fail_route-Returns ne e p (find-All (GoesOut p) ne e dv vector y) c)))

  on_link_failure-Returns :
      (ne : Address) (s : Option Protocol)
      → Returns (Keeps m) s
      → Returns (Keeps m) (on_link_failure w ne s)
  on_link_failure-Returns ne s (p, e, c) = rw e (send_update_on_link_failure-Returns ne p c)

  pub purge-Returns :
      (n : Neighbors) (s : Option Protocol)
      → Returns (Keeps m) s
      → Returns (Keeps m) (purge w (some (on_link_failure w)) n s).1
  purge-Returns n s h =
      let e = (purge-closed w (on_link_failure w) n s).2 in
      rw e (
        for_each_inv (Returns (Keeps m)) (on_link_failure w) on_link_failure-Returns (closed w n.nb)
          s h)

  -- Purge of the protocol's neighbors returns, and leaves those that are neither expired nor marked.
  pub purge_neighbors-Returns :
      (p : Protocol)
      → Keeps m p
      → Returns
          (λ r. Keeps m r × (r.nb.nb ≡ reject (close_neighbor w) p.nb.nb))
          (purge_neighbors w p)
  unfolding purge_neighbors
  purge_neighbors-Returns p c =
      let (n, s) = purge w (some (on_link_failure w)) p.nb (some p) in
      let (q, e, (z, k)) = purge-Returns p.nb (some p) (p, refl, c) in
      (
        record q { nb = n },
        rw e refl,
        ((z, with_nb q n k), (purge-closed w (on_link_failure w) p.nb (some p)).0),
      )

  update-missing :
      (addr : Address) (expire : ℕ) (n : Neighbors) (s : Option Protocol)
      → update_found w addr expire n.arp n.nb ≡ none
      → Nb.update w (some (on_link_failure w)) addr expire n s
        ≡ purge w (some (on_link_failure w)) (Nb.pushed w addr expire n) s
  unfolding Nb.update
  update-missing addr expire n s z = rw (z, Nb.update) refl

  update-found :
      (addr : Address) (expire : ℕ) (n : Neighbors) (nb' : List Neighbor) (s : Option Protocol)
      → update_found w addr expire n.arp n.nb ≡ some nb'
      → Nb.update w (some (on_link_failure w)) addr expire n s ≡ (record n { nb = nb' }, s)
  unfolding Nb.update
  update-found addr expire n nb' s z = rw (z, Nb.update) refl

  pub update_neighbor-Returns :
      (addr : Address) (expire : ℕ) (p : Protocol)
      → Keeps m p
      → Returns (Keeps m) (update_neighbor w addr expire p)
  unfolding update_neighbor
  update_neighbor-Returns addr expire p c =
      elim (Option-cases (update_found w addr expire p.nb.arp p.nb.nb)) [
        | inl z ↦
            let seen : Protocol = record p { nb = Nb.pushed w addr expire p.nb } in
            let n = Nb.pushed w addr expire p.nb in
            let (q, e, (y, k)) = purge-Returns n (some seen) (seen, refl, (c.0, with_nb p n c.1)) in
            (
              record q { nb = (purge w (some (on_link_failure w)) n (some seen)).0 },
              rw (z, update-missing addr expire p.nb (some seen) z, e) refl,
              (y, with_nb q _ k),
            )
        | inr (found_list, z) ↦ (
          record p { nb = record p.nb { nb = found_list } },
          rw (z, update-found addr expire p.nb found_list (some p) z) refl,
          (c.0, with_nb p _ c.1),
        )
      ]
