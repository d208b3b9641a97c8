-- ===== src/Neighbors/Laws.antt =====
-- model/bsdvr-neighbor.cc: what purging removes, and whom it reports.
use bsdvr_ns.Base.{
  ℕ, ◌-◌, ◌≡◌, refl, Bool, false, not, ◌&&◌, Option, some, List, [], ◌∷◌, ◌==◌, if◌then◌else◌, any,
  any-reject, reject, for_each, pos, arith, Bool-cases, inl, inr,
}
use bsdvr_ns.Net.{Address, World}
use bsdvr_ns.Neighbors.{
  Neighbor, Neighbors, close_neighbor, notify, purge, is_neighbor, remaining, get_expire_time,
}

-- The neighbors that are to be closed, in order.
abbrev pub closed : World → List Neighbor → List Address
closed w [] = []
closed w (i ∷ nb) =
    let rest = closed w nb in if close_neighbor w i then i.neighbor_address ∷ rest else rest

module _ {S : Type 0} (w : World) (handle : Address → S → S) where
  notify-closed :
      (nb : List Neighbor) (s : S) → notify w (some handle) nb s ≡ for_each handle (closed w nb) s
  unfolding notify
  notify-closed [] s = refl
  notify-closed (i ∷ nb) s = elim (Bool-cases (close_neighbor w i)) [
    | inl e ↦ rw e (notify-closed nb (handle i.neighbor_address s))
    | inr e ↦ rw e (notify-closed nb s)
  ]

  -- Purge leaves the neighbors that are neither expired nor marked, in their order, and calls the
  -- link failure callback once for each of the others, in their order, and for nobody else.
  pub purge-closed :
      (n : Neighbors) (s : S)
      → ((purge w (some handle) n s).0.nb ≡ reject (close_neighbor w) n.nb)
        × (any (close_neighbor w) (purge w (some handle) n s).0.nb ≡ false)
        × ((purge w (some handle) n s).1 ≡ for_each handle (closed w n.nb) s)
  unfolding purge
  purge-closed n s = ground (arith, notify-closed n.nb s, any-reject (close_neighbor w) n.nb)

-- A neighbor with the address that is neither expired nor marked.
abbrev pub has_live : World → Address → List Neighbor → Bool
has_live w addr = any (λ i. i.neighbor_address == addr && not (close_neighbor w i))

has_live-reject :
    (w : World) (addr : Address) (nb : List Neighbor)
    → any (λ i. i.neighbor_address == addr) (reject (close_neighbor w) nb) ≡ has_live w addr nb
has_live-reject w addr [] = refl
has_live-reject w addr (i ∷ nb) = ground (arith, has_live-reject w addr nb)

module _ {S : Type 0} (w : World) (handler : Option (Address → S → S)) where
  pub purge-nb :
      (n : Neighbors) (s : S) → (purge w handler n s).0.nb ≡ reject (close_neighbor w) n.nb
  unfolding purge
  purge-nb n s = ground arith

  -- IsNeighbor answers whether some neighbor with the address is neither expired nor marked,
  -- whether or not the vector has been purged before.
  pub is_neighbor_lem :
      (addr : Address) (n : Neighbors) (s : S)
      → (is_neighbor w handler addr n s).0 ≡ has_live w addr n.nb
  unfolding is_neighbor
  is_neighbor_lem addr n s = ground (arith, purge-nb n s, has_live-reject w addr n.nb)

-- The time that is left of the first neighbor with the address that is neither expired nor marked.
abbrev pub live_time : World → Address → List Neighbor → ℕ
live_time w addr [] = 0
live_time w addr (i ∷ nb) =
    let rest = live_time w addr nb in
    if i.neighbor_address == addr && not (close_neighbor w i) then i.expire_time - w.now else rest

remaining-reject :
    (w : World) (addr : Address) (nb : List Neighbor)
    → remaining w addr (reject (close_neighbor w) nb) ≡ pos (live_time w addr nb)
unfolding remaining close_neighbor
remaining-reject w addr [] = refl
remaining-reject w addr (i ∷ nb) = ground (arith, remaining-reject w addr nb)

-- GetExpireTime answers with the time left of the first neighbor with the address that is neither
-- expired nor marked, and with 0 if there is none: never with a negative time.
pub get_expire_time_lem :
    {S : Type 0} (w : World) (handler : Option (Address → S → S)) (addr : Address) (n : Neighbors)
    (s : S)
    → (get_expire_time w handler addr n s).0 ≡ pos (live_time w addr n.nb)
unfolding get_expire_time
get_expire_time_lem w handler addr n s =
    ground (arith, purge-nb w handler n s, remaining-reject w addr n.nb)
