-- ===== src/Protocol/Interfaces/Tests.antt =====
-- The interfaces of node 1.
use bsdvr_ns.Base.{◌≡◌, refl, some, [], ◌∷◌, ◌++◌, arith}
use bsdvr_ns.Base.Map.{find}
use bsdvr_ns.Protocol.{Protocol, find_socket}
use bsdvr_ns.Protocol.Interfaces.{
  open_sockets, notify_interface_up, notify_interface_down, notify_add_address,
  notify_remove_address,
}
use bsdvr_ns.Protocol.Interfaces.Events.{IsDown, notify_interface_down-IsDown}
use bsdvr_ns.Protocol.Interfaces.Addresses.{
  IsLeft, AreFresh, notify_add_address-notify_add_address, notify_remove_address-IsLeft,
}
use bsdvr_ns.Protocol.Interfaces.UpDown.{notify_interface_down-notify_interface_up}
use bsdvr_ns.Samples.{node, world, careful, home}

-- A node without sockets.
abbrev bare : Protocol
bare = record (node careful) { socket_addresses = []; socket_broadcast_addresses = [] }

bare_fresh : AreFresh world bare
unfolding find
bare_fresh = (refl, refl)

notify_interface_down-IsDown_example :
    (r : Protocol) × (notify_interface_down world 1 (node careful) ≡ some r)
    × IsDown home (node careful) r
unfolding find_socket
notify_interface_down-IsDown_example =
    notify_interface_down-IsDown world 1 (node careful) refl refl refl refl (omega arith)
      ((omega arith, tt), (tt, tt))

notify_add_address-notify_add_address_example :
    notify_add_address world 1 (open_sockets world home bare) ≡ some (open_sockets world home bare)
unfolding notify_add_address find_socket
notify_add_address-notify_add_address_example =
    notify_add_address-notify_add_address world 1 bare (open_sockets world home bare) bare_fresh
      refl

notify_remove_address-IsLeft_example :
    (r : Protocol) × (notify_remove_address world 1 home (node careful) ≡ some r) × IsLeft 6 r
unfolding find_socket
notify_remove_address-IsLeft_example =
    notify_remove_address-IsLeft world 1 6 home (node careful) refl refl refl

notify_interface_down-notify_interface_up_example :
    (q r : Protocol) × (notify_interface_up world 1 bare ≡ some q)
    × (notify_interface_down world 1 q ≡ some r)
    × (r.socket_addresses ≡ [])
    × (r.socket_broadcast_addresses ≡ [])
    × (r.closed_sockets ≡ [] ++ 7 ∷ 8 ∷ [])
unfolding find_socket
notify_interface_down-notify_interface_up_example =
    notify_interface_down-notify_interface_up world 1 bare refl refl refl refl bare_fresh refl refl
