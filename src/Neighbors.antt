-- ===== src/Neighbors.antt =====
-- model/bsdvr-neighbor.h and model/bsdvr-neighbor.cc: the active neighbors of a node.
-- The link failure callback acts on a state of the caller's, `S`; `none` is the null callback. An
-- operation returns the new neighbors and that state.
pub mod Laws
pub mod Updates
pub mod Invariant
mod Tests
use bsdvr_ns.Base.{
  ℕ, ◌+◌, Bool, true, false, not, ◌&&◌, ◌||◌, Option, none, some, List, [], ◌∷◌, ◌++◌, map, ◌==◌,
  ltb, if◌then◌else◌, any, reject, for_each, ℤ, pos, sub_ℕ,
}
use bsdvr_ns.Net.{Address, World, ArpEntry, Timer, cancel_timer, schedule_timer}

pub record Neighbor : Type 0 where
  pub neighbor_address : Address
  pub hardware_address : ℕ
  pub expire_time : ℕ
  pub close : Bool

pub record Neighbors : Type 0 where
  pub ntimer : Timer
  pub nb : List Neighbor
  pub arp : List ℕ

-- The constructor: `delay` is the timer's.
unfoldable pub new_neighbors : ℕ → Neighbors
new_neighbors delay = record {
  ntimer = record { delay = delay; expires = none };
  nb = [];
  arp = [];
}

-- CloseNeighbor
unfoldable pub close_neighbor : World → Neighbor → Bool
close_neighbor w n = ltb n.expire_time w.now || n.close

unfoldable pub schedule_ntimer : World → Neighbors → Neighbors
schedule_ntimer w n = record n { ntimer = schedule_timer w n.ntimer.delay (cancel_timer n.ntimer) }

unfoldable pub clear : Neighbors → Neighbors
clear n = record n { nb = [] }

unfoldable pub add_arp_cache : ℕ → Neighbors → Neighbors
add_arp_cache a n = record n { arp = n.arp ++ a ∷ [] }

unfoldable pub del_arp_cache : ℕ → Neighbors → Neighbors
del_arp_cache a n = record n { arp = reject (λ c. c == a) n.arp }

-- The condition under which an entry of a cache answers.
abbrev pub answers : ArpEntry → Bool
answers e = (e.is_alive || e.is_permanent) && not e.is_expired

unfoldable pub lookup_mac_address : World → Address → List ℕ → ℕ
lookup_mac_address w addr [] = w.no_mac
lookup_mac_address w addr (a ∷ arp) =
    let rest = lookup_mac_address w addr arp in
    elim (w.arp_lookup a addr) [ none ↦ rest | some e ↦ if answers e then e.mac_address else rest ]

-- The loop of ProcessTxError over the vector.
abbrev pub mark_closed : ℕ → Neighbor → Neighbor
mark_closed mac i = if i.hardware_address == mac then record i { close = true } else i

module _ (w : World) where
  -- The search of GetExpireTime: a signed difference of times.
  unfoldable pub remaining : Address → List Neighbor → ℤ
  remaining addr [] = pos 0
  remaining addr (i ∷ nb) =
      let rest = remaining addr nb in
      if i.neighbor_address == addr then sub_ℕ i.expire_time w.now else rest

  -- What Update does to a neighbor that it finds.
  unfoldable pub refresh_neighbor : ℕ → List ℕ → Neighbor → Neighbor
  refresh_neighbor expire arp i = record i {
    expire_time = if ltb (expire + w.now) i.expire_time then i.expire_time else expire + w.now;
    hardware_address =
        if i.hardware_address == w.no_mac
        then lookup_mac_address w i.neighbor_address arp
        else i.hardware_address;
  }

  -- The loop of Update over the vector: `none` if it ends without a hit.
  unfoldable pub update_found : Address → ℕ → List ℕ → List Neighbor → Option (List Neighbor)
  unfolding refresh_neighbor
  update_found addr expire arp [] = none
  update_found addr expire arp (i ∷ nb) =
      let rest = update_found addr expire arp nb in
      if i.neighbor_address == addr
      then some (refresh_neighbor expire arp i ∷ nb)
      else elim rest [ none ↦ none | some nb' ↦ some (i ∷ nb') ]

-- What Update appends for an address that it does not find.
abbrev pub pushed : World → Address → ℕ → Neighbors → Neighbors
pushed w addr expire n = record n {
  nb =
      n.nb
      ++ record {
        neighbor_address = addr;
        hardware_address = lookup_mac_address w addr n.arp;
        expire_time = expire + w.now;
        close = false;
      }
        ∷ [];
}

module _ {S : Type 0} (w : World) (handle_link_failure : Option (Address → S → S)) where
  -- The callback for each neighbor to be closed, in the order of the vector.
  unfoldable pub notify : List Neighbor → S → S
  notify nb s = elim handle_link_failure [
    | none ↦ s
    | some handle ↦
        for_each (λ j t. if close_neighbor w j then handle j.neighbor_address t else t) nb s
  ]

  unfoldable pub purge : Neighbors → S → Neighbors × S
  unfolding schedule_ntimer
  purge n s = elim n.nb [
    | [] ↦ (n, s)
    | _ ∷ _ ↦ (schedule_ntimer w (record n { nb = reject (close_neighbor w) n.nb }), notify n.nb s)
  ]

  unfoldable pub is_neighbor : Address → Neighbors → S → Bool × Neighbors × S
  is_neighbor addr n s =
      let (n', t) = purge n s in (any (λ i. i.neighbor_address == addr) n'.nb, n', t)

  unfoldable pub get_expire_time : Address → Neighbors → S → ℤ × Neighbors × S
  unfolding remaining
  get_expire_time addr n s = let (n', t) = purge n s in (remaining w addr n'.nb, n', t)

  unfoldable pub update : Address → ℕ → Neighbors → S → Neighbors × S
  update addr expire n s = elim (update_found w addr expire n.arp n.nb) [
    | some nb' ↦ (record n { nb = nb' }, s)
    | none ↦ purge (pushed w addr expire n) s
  ]

  unfoldable pub process_tx_error : ℕ → Neighbors → S → Neighbors × S
  process_tx_error mac n s = purge (record n { nb = map (mark_closed mac) n.nb }) s
