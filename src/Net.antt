-- ===== src/Net.antt =====
-- What the program uses of ns-3, which is not part of the repository: values of its types as
-- records of what the source reads, and the answers of the node's stack as a record `World`.
-- Addresses, sockets, devices and ARP caches are numbers: an IPv4 address is its 32 bits, a Ptr is
-- what it points to. Times are whole numbers of one unit, and an interface number is its bit pattern.
use bsdvr_ns.Base.{ℕ, suc, ◌+◌, Bool, ◌&&◌, ◌==◌, if◌then◌else◌, Option, none, some}

abbrev pub Address : Type 0
Address = ℕ

-- ns3::Ipv4InterfaceAddress. `other` is what its == compares besides.
pub record InterfaceAddress : Type 0 where
  pub local : Address
  pub mask : ℕ
  pub broadcast : Address
  pub other : ℕ

abbrev pub iface_eq : InterfaceAddress → InterfaceAddress → Bool
iface_eq a b =
    a.local == b.local && (a.mask == b.mask && (a.broadcast == b.broadcast && a.other == b.other))

-- ns3::Ipv4Route, an object that routing table entries share through Ptr<Ipv4Route>.
pub record Ipv4Route : Type 0 where
  pub destination : Address
  pub gateway : Address
  pub source : Address
  pub output_device : ℕ

-- The routes that exist. A Ptr<Ipv4Route> is a number below `fresh`.
pub record Routes : Type 0 where
  pub route_at : ℕ → Ipv4Route
  pub fresh : ℕ

abbrev pub create_route : Ipv4Route → Routes → Routes
create_route r h = record {
  route_at = λ p. if p == h.fresh then r else h.route_at p;
  fresh = suc h.fresh;
}

abbrev pub set_route_at : ℕ → Ipv4Route → Routes → Routes
set_route_at q r h = record h { route_at = λ p. if p == q then r else h.route_at p }

pub record ArpEntry : Type 0 where
  pub is_alive : Bool
  pub is_permanent : Bool
  pub is_expired : Bool
  pub mac_address : ℕ

pub data Wifi : Type 0 where
  no_wifi null_mac other_mac adhoc_mac : Wifi

-- What the simulator and the node's IP stack answer during one event.
pub record World : Type 0 where
  pub now : ℕ
  -- Ipv4Address (), Ipv4InterfaceAddress () and Mac48Address ()
  pub no_address : Address
  pub no_iface : InterfaceAddress
  pub no_mac : ℕ
  -- the entry that an ARP cache has for an address
  pub arp_lookup : ℕ → Address → Option ArpEntry
  -- Ipv4::GetInterfaceForAddress, GetNetDevice, GetAddress (i, 0), GetInterfaceForDevice
  pub interface_for_address : Address → ℕ
  pub net_device : ℕ → ℕ
  pub address_of : ℕ → InterfaceAddress
  pub interface_for_device : ℕ → ℕ
  -- Ipv4InterfaceAddress (local, mask)
  pub make_iface : Address → ℕ → InterfaceAddress
  -- Ipv4Address::IsMulticast and IsBroadcast, Ipv4::IsDestinationAddress, IsForwarding
  pub is_multicast : Address → Bool
  pub is_broadcast : Address → Bool
  pub is_destination_address : Address → ℕ → Bool
  pub is_forwarding : ℕ → Bool
  -- Ipv4L3Protocol::GetNInterfaces, GetNAddresses, IsUp, and the ARP cache of an interface
  pub n_interfaces : ℕ
  pub n_addresses : ℕ → ℕ
  pub is_up : ℕ → Bool
  pub arp_cache_of : ℕ → Option ℕ
  -- whether a device is a WifiNetDevice, and its MAC
  pub wifi_of : ℕ → Wifi
  -- the socket that Socket::CreateSocket returns, by the number of those that the protocol has made
  pub socket_at : ℕ → ℕ
  -- the destination port in the UDP header of a packet, and what Packet::Copy returns
  pub udp_port : ℕ → ℕ
  pub copy_of : ℕ → ℕ

-- ns3::Timer with its delay: when it goes off, if it is scheduled.
pub record Timer : Type 0 where
  pub delay : ℕ
  pub expires : Option ℕ

abbrev pub cancel_timer : Timer → Timer
cancel_timer t = record t { expires = none }

abbrev pub schedule_timer : World → ℕ → Timer → Timer
schedule_timer w after t = record t { expires = some (w.now + after) }
