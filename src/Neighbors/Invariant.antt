-- ===== src/Neighbors/Invariant.antt =====
-- model/bsdvr-neighbor.cc: the invariant of the neighbors, and who is a neighbor after an operation.
use bsdvr_ns.Base.{
  ℕ, ◌≤◌, ◌≡◌, refl, false, not, ◌&&◌, ◌||◌, Option, List, [], ◌∷◌, ◌++◌, map, ◌==◌, any,
  any-append, reject, arith, Option-cases, inl, inr,
}
use bsdvr_ns.Net.{Address, World}
use bsdvr_ns.Neighbors.{
  Neighbor, Neighbors, close_neighbor, update_found, purge, is_neighbor, update, mark_closed,
  process_tx_error,
}
use bsdvr_ns.Neighbors.Laws.{has_live, is_neighbor_lem, purge-nb}
use bsdvr_ns.Neighbors.Updates.{
  AreDistinct, IsWellFormed, has, reject-AllOpen, reject-AreDistinct, mark-AreDistinct,
  update_found-eq-none, update_found-AllOpen, update_found-AreDistinct, update_found-has_live,
}

append-AreDistinct :
    (nb : List Neighbor) (x : Neighbor)
    → AreDistinct nb
    → has x.neighbor_address nb ≡ false
    → AreDistinct (nb ++ x ∷ [])
append-AreDistinct [] x d h = (refl, tt)
append-AreDistinct (i ∷ nb) x d h = ground (
  arith,
  append-AreDistinct nb x d.1,
  any-append (λ (j : Neighbor). j.neighbor_address == i.neighbor_address) nb (x ∷ []),
)

module _ {S : Type 0} (w : World) (handler : Option (Address → S → S)) where
  purge-IsWellFormed :
      (n : Neighbors) (s : S) → AreDistinct n.nb → IsWellFormed (purge w handler n s).0
  purge-IsWellFormed n s d = record {
    open_lem = rw (purge-nb w handler n s) (reject-AllOpen w n.nb);
    distinct = rw (purge-nb w handler n s) (reject-AreDistinct w n.nb d);
  }

  update-IsWellFormed :
      (addr : Address) (expire : ℕ) (n : Neighbors) (s : S)
      → IsWellFormed n
      → IsWellFormed (update w handler addr expire n s).0
  unfolding update
  update-IsWellFormed addr expire n s v =
      elim (Option-cases (update_found w addr expire n.arp n.nb)) [
        | inl e ↦
            rw (e, update)
              (purge-IsWellFormed _ s (
                append-AreDistinct n.nb _ v.distinct
                  (update_found-eq-none w addr expire n.arp n.nb e)))
        | inr (nb', e) ↦
            rw (e, update)
              (record {
                open_lem = ground (arith, update_found-AllOpen w addr expire n.arp n.nb v.open_lem);
                distinct =
                    ground (arith, update_found-AreDistinct w addr expire n.arp n.nb v.distinct);
              })
      ]

  -- Purge, Update and ProcessTxError keep the neighbors well-formed: no address stands in two of
  -- them, and none is marked to be closed.
  pub operations-IsWellFormed :
      (addr mac : Address) (expire : ℕ) (n : Neighbors) (s : S)
      → IsWellFormed n
      → IsWellFormed (purge w handler n s).0
        × IsWellFormed (update w handler addr expire n s).0
        × IsWellFormed (process_tx_error w handler mac n s).0
  unfolding process_tx_error
  operations-IsWellFormed addr mac expire n s v = (
    purge-IsWellFormed n s v.distinct,
    update-IsWellFormed addr expire n s v,
    purge-IsWellFormed _ s (mark-AreDistinct mac n.nb v.distinct),
  )

  reject-has_live :
      (b : Address) (nb : List Neighbor)
      → has_live w b (reject (close_neighbor w) nb) ≡ has_live w b nb
  unfolding close_neighbor
  reject-has_live b [] = refl
  reject-has_live b (i ∷ nb) = ground (arith, reject-has_live b nb)

  append-has_live :
      (b : Address) (nb : List Neighbor) (x : Neighbor)
      → x.close ≡ false
      → w.now ≤ x.expire_time
      → has_live w b (nb ++ x ∷ []) ≡ (x.neighbor_address == b || has_live w b nb)
  unfolding close_neighbor
  append-has_live b [] x c e = ground arith
  append-has_live b (i ∷ nb) x c e = ground (arith, append-has_live b nb x)

  pub update-has_live :
      (a b : Address) (expire : ℕ) (n : Neighbors) (s : S)
      → IsWellFormed n
      → has_live w b (update w handler a expire n s).0.nb ≡ (a == b || has_live w b n.nb)
  unfolding update
  update-has_live a b expire n s v = elim (Option-cases (update_found w a expire n.arp n.nb)) [
    | inl e ↦
        rw (e, update, purge-nb w handler, reject-has_live b)
          (append-has_live b n.nb _ refl (omega arith))
    | inr (nb', e) ↦ rw (e, update) (update_found-has_live w a b expire n.arp n.nb nb' v.open_lem e)
  ]

  -- After an Update of well-formed neighbors exactly the updated address and those that were
  -- neighbors before are neighbors.
  pub update-is_neighbor :
      (a b : Address) (expire : ℕ) (n : Neighbors) (s t : S)
      → IsWellFormed n
      → (is_neighbor w handler b (update w handler a expire n s).0 t).0
        ≡ (a == b || (is_neighbor w handler b n s).0)
  update-is_neighbor a b expire n s t v =
      rw
        (is_neighbor_lem w handler b, is_neighbor_lem w handler b, update-has_live a b expire n s v)

  mark-has_live :
      (mac : ℕ) (b : Address) (nb : List Neighbor)
      → has_live w b (map (mark_closed mac) nb)
        ≡ any
            (λ i.
              not (i.hardware_address == mac)
              && (i.neighbor_address == b && not (close_neighbor w i)))
            nb
  unfolding close_neighbor
  mark-has_live mac b [] = refl
  mark-has_live mac b (i ∷ nb) = ground (arith, mark-has_live mac b nb)

  -- A transmission error to a hardware address closes the neighbors with that address, at once, and
  -- no others.
  pub process_tx_error-is_neighbor :
      (mac : ℕ) (b : Address) (n : Neighbors) (s t : S)
      → (is_neighbor w handler b (process_tx_error w handler mac n s).0 t).0
        ≡ any
            (λ i.
              not (i.hardware_address == mac)
              && (i.neighbor_address == b && not (close_neighbor w i)))
            n.nb
  unfolding process_tx_error
  process_tx_error-is_neighbor mac b n s t =
      rw (is_neighbor_lem w handler b, purge-nb w handler, reject-has_live b)
        (mark-has_live mac b n.nb)
