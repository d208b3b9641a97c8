-- ===== src/RoutingTable.antt =====
-- model/bsdvr-rtable.h and model/bsdvr-rtable.cc: routing table entries, and the two tables.
pub mod Laws
use bsdvr_ns.Base.{ℕ, Bool, true, false, Option, none, some, List, [], ◌∷◌, ◌==◌, if◌then◌else◌}
use bsdvr_ns.Base.Map.{Map, find, assign, insert, erase}
use bsdvr_ns.Net.{
  Address, InterfaceAddress, iface_eq, Ipv4Route, Routes, create_route, set_route_at, World,
}

pub data RouteState : Type 0 where
  inactive active : RouteState

abbrev pub state_eq : RouteState → RouteState → Bool
state_eq inactive inactive = true
state_eq active active = true
state_eq inactive active = false
state_eq active inactive = false

-- `ipv4_route` points into the routes: a copy of an entry shares its route.
pub record RoutingTableEntry : Type 0 where
  pub hops : ℕ
  pub ipv4_route : ℕ
  pub iface : InterfaceAddress
  pub state : RouteState
  pub entries_changed : Bool

-- The constructor: it creates a route of its own.
unfoldable pub new_entry :
    ℕ → Address → InterfaceAddress → ℕ → Address → Bool → Routes → RoutingTableEntry × Routes
new_entry dev dst iface hops next_hop changed h = (
  record {
    hops = hops;
    ipv4_route = h.fresh;
    iface = iface;
    state = active;
    entries_changed = changed;
  },
  create_route
      (record { destination = dst; gateway = next_hop; source = iface.local; output_device = dev })
      h,
)

-- RoutingTableEntry (), the constructor with its default arguments.
unfoldable pub default_entry : World → Routes → RoutingTableEntry × Routes
unfolding new_entry
default_entry w h = new_entry 0 w.no_address w.no_iface 0 w.no_address false h

abbrev pub get_destination : Routes → RoutingTableEntry → Address
get_destination h e = (h.route_at e.ipv4_route).destination

abbrev pub get_next_hop : Routes → RoutingTableEntry → Address
get_next_hop h e = (h.route_at e.ipv4_route).gateway

-- The two setters that write to the shared route.
unfoldable pub set_next_hop : Address → RoutingTableEntry → Routes → Routes
set_next_hop next_hop e h =
    let r = h.route_at e.ipv4_route in set_route_at e.ipv4_route (record r { gateway = next_hop }) h

unfoldable pub set_output_device : ℕ → RoutingTableEntry → Routes → Routes
set_output_device dev e h =
    let r = h.route_at e.ipv4_route in
    set_route_at e.ipv4_route (record r { output_device = dev }) h

abbrev pub set_route_state : RouteState → RoutingTableEntry → RoutingTableEntry
set_route_state s e = record e { state = s }

abbrev pub Entries : Type 0
Entries = Map RoutingTableEntry

-- The forwarding table, the distance vector of each neighbor, and the routes of their entries.
pub record RoutingTable : Type 0 where
  pub forwarding_table : Entries
  pub distance_vector_table : Map Entries
  pub routes : Routes

-- Lookup with its out-parameter: `none` for the result false.
unfoldable pub lookup_route : Address → Entries → Option RoutingTableEntry
lookup_route id m = find id m

unfoldable pub delete_route : Address → Entries → Entries × Bool
delete_route dst m = elim (find dst m) [ none ↦ (m, false) | some _ ↦ (erase dst m, true) ]

unfoldable pub add_route : Routes → RoutingTableEntry → Entries → Entries × Bool
add_route h rt m = elim (find (get_destination h rt) m) [
  | none ↦ (insert (get_destination h rt) rt m, true)
  | some _ ↦ (m, false)
]

unfoldable pub update : Routes → RoutingTableEntry → Entries → Entries × Bool
update h rt m = elim (find (get_destination h rt) m) [
  | none ↦ (m, false)
  | some _ ↦ (assign (get_destination h rt) rt m, true)
]

unfoldable pub set_entry_state : Address → RouteState → Entries → Entries × Bool
set_entry_state id s m = elim (find id m) [
  | none ↦ (m, false)
  | some e ↦ (assign id (set_route_state s e) m, true)
]

-- The loop that erases while it iterates.
unfoldable pub delete_all_routes_from_interface : InterfaceAddress → Entries → Entries
delete_all_routes_from_interface iface [] = []
delete_all_routes_from_interface iface ((dst, e) ∷ m) =
    let rest = delete_all_routes_from_interface iface m in
    if iface_eq e.iface iface then rest else (dst, e) ∷ rest

unfoldable pub clear : RoutingTable → RoutingTable
clear t = record t { forwarding_table = [] }
