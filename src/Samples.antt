-- ===== src/Samples.antt =====
-- Concrete values for the examples: node 1 with the neighbors 2 and 3, which both know node 7.
use bsdvr_ns.PacketQueue.{
  ForwardingStatus, not_forwarded, inactive_forwarded, active_forwarded, Status, QueueEntry,
  PacketQueue,
}
use bsdvr_ns.Packet.{Wire, IsWire}
use bsdvr_ns.Base.{
  some, ◌+◌, ◌*◌, ◌/◌, ◌%◌, ◌^◌, ◌≡◌, length, arith, refl, true, ℕ, false, none, List, [], ◌∷◌,
  ◌==◌, if◌then◌else◌,
}
use bsdvr_ns.Base.Map.{Map}
use bsdvr_ns.Net.{adhoc_mac, Address, InterfaceAddress, Ipv4Route, Routes, World}
use bsdvr_ns.RoutingTable.{RouteState, active, RoutingTableEntry, Entries, RoutingTable}
use bsdvr_ns.Protocol.{Protocol}
use bsdvr_ns.Neighbors.{Neighbor, Neighbors}

abbrev pub home : InterfaceAddress
home = record { local = 1; mask = 24; broadcast = 255; other = 0 }

abbrev pub away : InterfaceAddress
away = record { local = 1001; mask = 24; broadcast = 1255; other = 0 }

abbrev pub world : World
world = record {
  now = 100;
  no_address = 1717986918;
  no_iface = record { local = 1717986918; mask = 0; broadcast = 0; other = 0 };
  no_mac = 0;
  arp_lookup = λ cache addr. none;
  interface_for_address = λ addr. 1;
  net_device = λ i. i;
  address_of = λ i. home;
  interface_for_device = λ d. d;
  make_iface = λ addr mask. record { local = addr; mask = mask; broadcast = addr; other = 0 };
  is_multicast = λ addr. addr == 3758096385;
  is_broadcast = λ addr. addr == 4294967295;
  is_destination_address = λ addr i. addr == 1;
  is_forwarding = λ i. true;
  n_interfaces = 1;
  n_addresses = λ i. 1;
  is_up = λ i. true;
  arp_cache_of = λ i. some i;
  wifi_of = λ d. adhoc_mac;
  socket_at = λ k. k + 5;
  udp_port = λ x. 80;
  copy_of = λ x. x + 1000;
}

abbrev pub route : Address → Address → Ipv4Route
route dst via = record { destination = dst; gateway = via; source = 1; output_device = 1 }

-- 0 and 1 lead to 7 by way of 2 and of 3, 2 and 3 to 3 by way of 2 and directly.
abbrev pub routes : Routes
routes = record {
  route_at = λ p.
      if p == 0
      then route 7 2
      else if p == 1
      then route 7 3
      else if p == 2
      then route 3 2
      else route 3 3;
  fresh = 4;
}

abbrev pub entry : ℕ → ℕ → RouteState → RoutingTableEntry
entry p hops s = record {
  hops = hops;
  ipv4_route = p;
  iface = home;
  state = s;
  entries_changed = false;
}

abbrev pub vectors : Map Entries
vectors =
    (2, (7, entry 0 3 active) ∷ []) ∷ (3, (3, entry 3 1 active) ∷ (7, entry 1 5 active) ∷ []) ∷ []

abbrev pub empty_table : RoutingTable
empty_table = record { forwarding_table = []; distance_vector_table = vectors; routes = routes }

-- Node 3 is reached by way of node 2, though it is a neighbor.
abbrev pub detour_table : RoutingTable
detour_table = record empty_table {
  forwarding_table = (3, entry 2 2 active) ∷ (7, entry 0 3 active) ∷ [];
}

abbrev pub neighbor : Address → ℕ → Neighbor
neighbor addr expire = record {
  neighbor_address = addr;
  hardware_address = addr;
  expire_time = expire;
  close = false;
}

abbrev pub two_neighbors : List Neighbor
two_neighbors = neighbor 2 120 ∷ neighbor 3 90 ∷ []

abbrev pub some_neighbors : Neighbors
some_neighbors = record {
  ntimer = record { delay = 1; expires = none };
  nb = two_neighbors;
  arp = [];
}

-- What the constructor of Status may leave: the memory may hold its argument, or the same always.
abbrev pub careful : ForwardingStatus → Status
careful not_forwarded = record { p_status = 0; p_valid = true }
careful inactive_forwarded = record { p_status = 1; p_valid = true }
careful active_forwarded = record { p_status = 2; p_valid = true }

abbrev pub careless : ForwardingStatus → Status
careless s = record { p_status = 0; p_valid = true }

abbrev pub queued : (ForwardingStatus → Status) → ℕ → Address → ForwardingStatus → QueueEntry
queued status_of uid dst s = record {
  packet = record { pointer = uid; uid = uid };
  status = status_of s;
  header = record { source = 1; destination = dst; ttl = 64; protocol = 17 };
  ucb = 0;
  ecb = 0;
}

abbrev pub buffer : (ForwardingStatus → Status) → PacketQueue
buffer status_of = record {
  queue = queued status_of 10 7 not_forwarded ∷ queued status_of 11 7 inactive_forwarded ∷ [];
  max_len = 2;
}

-- A buffer that is a list of bytes, in network byte order.
abbrev get_byte : List ℕ → ℕ × List ℕ
get_byte [] = (0, [])
get_byte (x ∷ r) = (x, r)

abbrev get_word : List ℕ → ℕ × List ℕ
get_word (a ∷ b ∷ c ∷ d ∷ r) = (((a * 256 + b) * 256 + c) * 256 + d, r)
get_word r = (0, [])

abbrev pub bytes : Wire
bytes = record {
  Bytes = List ℕ;
  size = length;
  write_u8 = λ x r. x % 256 ∷ r;
  read_u8 = get_byte;
  write_u32 = λ x r. x / 16777216 % 256 ∷ x / 65536 % 256 ∷ x / 256 % 256 ∷ x % 256 ∷ r;
  read_u32 = get_word;
}

pub bytes_lem : IsWire bytes
bytes_lem = record {
  read_write_u8 = λ x r. refl;
  read_write_u32 = λ x r.
      let e : ((x / 16777216 % 256 * 256 + x / 65536 % 256) * 256 + x / 256 % 256) * 256 + x % 256
          ≡ x % 2 ^ 32 =
        omega arith in
      rw e;
  size_u8 = λ x r. omega arith;
  size_u32 = λ x r. omega arith;
}

-- The protocol of node 1 with one socket and two buffered packets for node 7.
abbrev pub node : (ForwardingStatus → Status) → Protocol
node status_of = record {
  main_address = 1;
  socket_addresses = (5, home) ∷ [];
  socket_broadcast_addresses = (6, home) ∷ [];
  routing_table = detour_table;
  lo = some 0;
  has_ipv4 = true;
  starting = false;
  sockets_made = 2;
  closed_sockets = [];
  traced = [];
  enable_hello = true;
  enable_broadcast = true;
  hello_interval = 10;
  nb = some_neighbors;
  max_queue_len = 2;
  queue = buffer status_of;
  max_pr_queue_len = 2;
  max_pr_queue_time = 5;
  prqueue = record { prqueue = []; max_len = 2; timeout = 5 };
  htimer = record { delay = 10; expires = none };
  last_bcast_time = 0;
  tag_of = λ x. none;
  drawn = 0;
  sent = [];
  forwarded = [];
}
