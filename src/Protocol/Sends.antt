-- ===== src/Protocol/Sends.antt =====
-- model/bsdvr.cc: which updates SendTriggeredUpdateToNeighbor and
-- SendTriggeredUpdateChangesToNeighbors send, and to whom.
use mathlib.Core.List.{append-nil, append_assoc}
use bsdvr_ns.Base.{
  Bool, refl, false, ◌||◌, option-both, All-mono, ◌≡◌, true, not, ◌&&◌, Option, none, some, List,
  [], ◌∷◌, ◌++◌, ◌==◌, if◌then◌else◌, All, contains, found, for_some, arith, Option-cases,
  Bool-cases, inl, inr,
}
use bsdvr_ns.Base.Map.{find, find-All}
use bsdvr_ns.Net.{Address, World}
use bsdvr_ns.RoutingTable.{RoutingTableEntry, Entries, get_destination}
use bsdvr_ns.Neighbors.{Neighbor}
use bsdvr_ns.Protocol.{
  Protocol, Sent, loopback, update_packet, find_socket, send_update, send_entry,
  send_triggered_update_to_neighbor, send_change, send_changes,
  send_triggered_update_changes_to_neighbors,
}

-- What the rounds of a loop send, in order.
abbrev pub all_sent {ℓ} : {A : Type ℓ} → (A → List Sent) → List A → List Sent
all_sent out [] = []
all_sent out (x ∷ xs) = out x ++ all_sent out xs

-- The state with more sent.
abbrev pub having_sent : Protocol → List Sent → Protocol
having_sent p more = record p { sent = p.sent ++ more }

module _ {ℓ} {A : Type ℓ} (body : A → Protocol → Option Protocol) (out : A → List Sent)
    (p : Protocol) where
  -- A round that appends to what is sent, and does nothing else.
  abbrev Appends : A → Type 0
  Appends x =
      (s : List Sent) → body x (record p { sent = s }) ≡ some (record p { sent = s ++ out x })

  for_some-all_sent :
      (xs : List A) (s : List Sent)
      → All Appends xs
      → for_some body xs (record p { sent = s }) ≡ some (record p { sent = s ++ all_sent out xs })
  for_some-all_sent [] s h = rw (append-nil s)
  for_some-all_sent (x ∷ xs) s h =
      rw (h.0 s, for_some-all_sent xs (s ++ out x) h.1, append_assoc s (out x) (all_sent out xs))

-- The update about an entry, through the socket of its interface.
abbrev pub update_through : Protocol → Address → RoutingTableEntry → List Sent
update_through p ne e = elim (find_socket e.iface p.socket_addresses) [
  | none ↦ []
  | some socket ↦ update_packet p e ne socket ∷ []
]

-- The entry's interface has a socket.
abbrev pub GoesOut : Protocol → Address × RoutingTableEntry → Type 0
GoesOut p (d, e) = found (find_socket e.iface p.socket_addresses) ≡ true

-- The entry has a socket, or it is the one for the loopback address, which SetIpv4 makes and whose
-- interface has none.
abbrev pub HasSocket : Protocol → Address × RoutingTableEntry → Type 0
HasSocket p (d, e) = (d == loopback || found (find_socket e.iface p.socket_addresses)) ≡ true

pub send_update_lem :
    (p : Protocol) (e : RoutingTableEntry) (ne : Address) (s : List Sent)
    → found (find_socket e.iface p.socket_addresses) ≡ true
    → send_update e ne (record p { sent = s })
      ≡ some (record p { sent = s ++ update_through p ne e })
unfolding send_update
send_update_lem p e ne s h = elim (Option-cases (find_socket e.iface p.socket_addresses)) [
  | inl z ↦ absurd (ground (arith, h, z))
  | inr (socket, z) ↦ rw (z, send_update, update_through)
]

-- The update about an entry of the forwarding table that a new neighbor gets.
abbrev pub introduces : World → Protocol → Address → Address × RoutingTableEntry → List Sent
introduces w p ne (d, e) =
    if not (get_destination p.routing_table.routes e == w.no_address)
      && (not (d == p.main_address) && (not (d == ne) && not (d == 2130706433)))
    then update_through p ne e
    else []

send_entry-Appends :
    (w : World) (p : Protocol) (ne : Address) (x : Address × RoutingTableEntry)
    → HasSocket p x
    → Appends (send_entry w ne) (introduces w p ne) p x
unfolding send_entry
send_entry-Appends w p ne (d, e) h s = elim (Bool-cases (d == loopback)) [
  | inl q ↦ ground (arith, q, append-nil s)
  | inr q ↦
      let k : found (find_socket e.iface p.socket_addresses) ≡ true = ground (arith, h, q) in
      ground (arith, send_update_lem p e ne s k, append-nil s)
]

-- The entries of the forwarding table, but for the loopback address's, all have a socket.
abbrev pub HasSockets : Protocol → Type 0
HasSockets p = All (HasSocket p) p.routing_table.forwarding_table

entries-Appends :
    (w : World) (p : Protocol) (ne : Address) (ft : Entries)
    → All (HasSocket p) ft
    → All (Appends (send_entry w ne) (introduces w p ne) p) ft
entries-Appends w p ne [] h = tt
entries-Appends w p ne (x ∷ ft) h = (send_entry-Appends w p ne x h.0, entries-Appends w p ne ft h.1)

-- Where every entry of the forwarding table but that of the loopback address has a socket,
-- SendTriggeredUpdateToNeighbor sends the neighbor one update for each entry, in the table's order, but for entries without a destination and
-- for those of the node itself, of the neighbor and of the loopback address; it does nothing else.
pub send_triggered_update_to_neighbor_lem :
    (w : World) (ne : Address) (p : Protocol)
    → HasSockets p
    → send_triggered_update_to_neighbor w ne p
      ≡ some (having_sent p (all_sent (introduces w p ne) p.routing_table.forwarding_table))
unfolding send_triggered_update_to_neighbor
send_triggered_update_to_neighbor_lem w ne p h =
    let ft = p.routing_table.forwarding_table in
    for_some-all_sent (send_entry w ne) (introduces w p ne) p ft p.sent
      (entries-Appends w p ne ft h)

-- The update that a neighbor gets about a change: none about the neighbor itself.
abbrev pub announces : Protocol → Address → Address → List Sent
announces p ne dst = elim (find dst p.routing_table.forwarding_table) [
  | none ↦ []
  | some e ↦ if dst == ne then [] else update_through p ne e
]

-- The entry for the destination, if there is one, has a socket.
abbrev pub is_sendable : Protocol → Address → Bool
is_sendable p d = elim (find d p.routing_table.forwarding_table) [
  | none ↦ true
  | some e ↦ found (find_socket e.iface p.socket_addresses)
]

abbrev pub IsSendable : Protocol → Address → Type 0
IsSendable p d = is_sendable p d ≡ true

pub find-IsSendable :
    (p : Protocol) (d : Address) (e : RoutingTableEntry)
    → IsSendable p d
    → find d p.routing_table.forwarding_table ≡ some e
    → found (find_socket e.iface p.socket_addresses) ≡ true
find-IsSendable p d e h z = ground (arith, h, z)

-- Where every entry but the loopback address's has a socket, so has that of any other destination.
pub HasSockets-IsSendable :
    (p : Protocol) (d : Address) → HasSockets p → (d == loopback) ≡ false → IsSendable p d
HasSockets-IsSendable p d h n =
    option-both (λ (b : Bool). b ≡ true) (find d p.routing_table.forwarding_table) (λ _. refl)
      (λ e z.
        let k = find-All (HasSocket p) d e p.routing_table.forwarding_table h z in
        ground (arith, k, n))

pub HasSockets-AreSendable :
    (p : Protocol) (ds : List Address)
    → HasSockets p
    → contains loopback ds ≡ false
    → All (IsSendable p) ds
HasSockets-AreSendable p [] h n = tt
HasSockets-AreSendable p (d ∷ ds) h n = (
  HasSockets-IsSendable p d h (ground (arith, n)),
  HasSockets-AreSendable p ds h (ground (arith, n)),
)

send_change-Appends :
    (p : Protocol) (ne dst : Address)
    → IsSendable p dst
    → Appends (send_change ne) (announces p ne) p dst
unfolding send_change
send_change-Appends p ne dst h s = elim (Option-cases (find dst p.routing_table.forwarding_table)) [
  | inl z ↦ rw (z, send_change, announces, append-nil s)
  | inr (e, z) ↦ elim (Bool-cases (dst == ne)) [
    | inl q ↦ rw (z, send_change, announces, q, append-nil s)
    | inr q ↦
        rw (z, send_change, announces, q) (send_update_lem p e ne s (find-IsSendable p dst e h z))
  ]
]

All-of : {A : Type 0} (P : A → Type 0) → ((x : A) → P x) → (xs : List A) → All P xs
All-of P f [] = tt
All-of P f (x ∷ xs) = (f x, All-of P f xs)

-- The updates that a neighbor gets about the changes: none if it is excepted.
abbrev pub announces_all : Protocol → List Address → List Address → Neighbor → List Sent
announces_all p changes nex i =
    if contains i.neighbor_address nex
    then []
    else all_sent (announces p i.neighbor_address) changes

send_changes-Appends :
    (p : Protocol) (changes nex : List Address)
    → All (IsSendable p) changes
    → (i : Neighbor) → Appends (send_changes changes nex) (announces_all p changes nex) p i
unfolding send_changes
send_changes-Appends p changes nex h i s = elim (Bool-cases (contains i.neighbor_address nex)) [
  | inl z ↦ rw (z, send_changes, append-nil s)
  | inr z ↦
      let ne = i.neighbor_address in
      rw (z, send_changes)
        (for_some-all_sent (send_change ne) (announces p ne) p changes s (
          All-mono (IsSendable p) (Appends (send_change ne) (announces p ne) p)
            (send_change-Appends p ne) changes h))
]

-- Where the forwarding table's entries for the changes have sockets,
-- SendTriggeredUpdateChangesToNeighbors sends each neighbor that is not excepted one update for each change that has an entry, in order, but none
-- about the neighbor itself; it does nothing else.
pub send_triggered_update_changes_to_neighbors_lem :
    (changes nex : List Address) (p : Protocol)
    → All (IsSendable p) changes
    → send_triggered_update_changes_to_neighbors changes nex p
      ≡ some (having_sent p (all_sent (announces_all p changes nex) p.nb.nb))
unfolding send_triggered_update_changes_to_neighbors
send_triggered_update_changes_to_neighbors_lem changes nex p h =
    for_some-all_sent (send_changes changes nex) (announces_all p changes nex) p p.nb.nb p.sent (
      All-of (Appends (send_changes changes nex) (announces_all p changes nex) p)
        (send_changes-Appends p changes nex h) p.nb.nb)
