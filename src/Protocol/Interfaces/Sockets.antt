-- ===== src/Protocol/Interfaces/Sockets.antt =====
-- model/bsdvr.cc: the maps of sockets, and the search for the socket of an address.
use bsdvr_ns.Base.{ℕ, suc, ◌≤◌, ◌≡◌, refl, true, none, some, [], ◌∷◌, found, if◌then◌else◌, arith}
use bsdvr_ns.Base.Map.{Map, find, assign, insert, erase}
use bsdvr_ns.Net.{Address, InterfaceAddress, iface_eq}
use bsdvr_ns.RoutingTable.{RoutingTableEntry}
use bsdvr_ns.Protocol.{Protocol, find_socket, send_update}

pub iface_eq_refl : (a : InterfaceAddress) → iface_eq a a ≡ true
iface_eq_refl a = ground arith

-- How many sockets an address has.
abbrev pub sockets_for : InterfaceAddress → Map InterfaceAddress → ℕ
sockets_for a [] = 0
sockets_for a ((s, iface) ∷ m) =
    let rest = sockets_for a m in if iface_eq iface a then suc rest else rest

pub find_socket-eq-none :
    (a : InterfaceAddress) (m : Map InterfaceAddress) → sockets_for a m ≡ 0 → find_socket a m ≡ none
unfolding find_socket
find_socket-eq-none a [] h = refl
find_socket-eq-none a ((s, iface) ∷ m) h = ground (arith, find_socket-eq-none a m)

sockets_for-erase-le :
    (a : InterfaceAddress) (s : ℕ) (m : Map InterfaceAddress)
    → sockets_for a (erase s m) ≤ sockets_for a m
unfolding erase
sockets_for-erase-le a s [] = omega arith
sockets_for-erase-le a s ((t, iface) ∷ m) = ground (arith, sockets_for-erase-le a s m)

pub sockets_for-erase :
    (a : InterfaceAddress) (s : ℕ) (m : Map InterfaceAddress)
    → find_socket a m ≡ some s
    → suc (sockets_for a (erase s m)) ≤ sockets_for a m
unfolding erase find_socket
sockets_for-erase a s [] h = cc
sockets_for-erase a s ((t, iface) ∷ m) h =
    ground (arith, sockets_for-erase a s m, sockets_for-erase-le a s m)

pub find_socket-found :
    (a : InterfaceAddress) (s : ℕ) (m : Map InterfaceAddress)
    → find_socket a m ≡ some s
    → found (find s m) ≡ true
unfolding find find_socket
find_socket-found a s [] h = cc
find_socket-found a s ((t, iface) ∷ m) h = ground (arith, find_socket-found a s m)

erase-missing : (k : ℕ) (m : Map InterfaceAddress) → find k m ≡ none → erase k m ≡ m
unfolding erase find
erase-missing k [] h = refl
erase-missing k ((j, x) ∷ m) h = ground (arith, erase-missing k m)

erase-assign :
    (k : ℕ) (v : InterfaceAddress) (m : Map InterfaceAddress)
    → find k m ≡ none
    → erase k (assign k v m) ≡ m
unfolding erase assign find
erase-assign k v [] h = ground arith
erase-assign k v ((j, x) ∷ m) h = ground (arith, erase-assign k v m, erase-missing k m)

pub erase-insert :
    (k : ℕ) (v : InterfaceAddress) (m : Map InterfaceAddress)
    → find k m ≡ none
    → erase k (insert k v m) ≡ m
unfolding insert
erase-insert k v m h = rw (h, insert) (erase-assign k v m h)

find_socket-assign :
    (k : ℕ) (a : InterfaceAddress) (m : Map InterfaceAddress)
    → find_socket a m ≡ none
    → find_socket a (assign k a m) ≡ some k
unfolding find_socket assign
find_socket-assign k a [] h = rw (iface_eq_refl a)
find_socket-assign k a ((j, x) ∷ m) h = ground (arith, iface_eq_refl a, find_socket-assign k a m)

pub find_socket-insert :
    (k : ℕ) (a : InterfaceAddress) (m : Map InterfaceAddress)
    → find k m ≡ none
    → find_socket a m ≡ none
    → find_socket a (insert k a m) ≡ some k
unfolding insert
find_socket-insert k a m f h = rw (f, insert) (find_socket-assign k a m h)

pub find_socket-erase :
    (a : InterfaceAddress) (s : ℕ) (m : Map InterfaceAddress)
    → find_socket a m ≡ some s
    → sockets_for a m ≤ 1
    → find_socket a (erase s m) ≡ none
find_socket-erase a s m h l =
    find_socket-eq-none a (erase s m) (omega (arith, sockets_for-erase a s m h, l))

pub send_update-missing :
    (p : Protocol) (e : RoutingTableEntry) (ne : Address)
    → find_socket e.iface p.socket_addresses ≡ none
    → send_update e ne p ≡ none
unfolding send_update
send_update-missing p e ne h = rw (h, send_update)
