-- ===== src/Protocol/System/Reachable.antt =====
-- model/bsdvr.cc: what holds in every state that a node reaches.
use bsdvr_ns.Base.{IfSome-of}
use bsdvr_ns.Packet.{Wire}
use bsdvr_ns.PacketQueue.{ForwardingStatus, Status}
use bsdvr_ns.Protocol.{Protocol}
use bsdvr_ns.Protocol.System.{
  Step, configured, ipv4_set, started, initialized, disposed, interface_up, interface_down,
  address_added, address_removed, frame_lost, htimer_expired, ntimer_expired, received, sent,
  arrived, Reach, constructed, next,
}
use bsdvr_ns.Protocol.System.Handling.{IsLegal, purge_neighbors-IfSome, hello_timer_expire-IfSome}
use bsdvr_ns.Protocol.System.Receiving.{recv_bsdv-IfSome}
use bsdvr_ns.Protocol.System.Events.{
  new_protocol-IsLegal, set-IsLegal, do_dispose-IsLegal, do_initialize-IsLegal, start-IsLegal,
  set_ipv4-IfSome, notify_interface_up-IfSome, notify_add_address-IfSome,
}
use bsdvr_ns.Protocol.System.Leaving.{
  notify_interface_down-IfSome, notify_remove_address-IfSome, notify_tx_error-IfSome, LeavesLegal,
  HandsOnLegal, route_output-IfSome, route_input-IfSome,
}

module _ (status_of : ForwardingStatus → Status) (b : Wire) where
  Step-IsLegal : (p : Protocol) {q : Protocol} → Step status_of b p q → IsLegal p → IsLegal q
  Step-IsLegal p (configured s) h = set-IsLegal s p h
  Step-IsLegal p (ipv4_set w e) h = IfSome-of IsLegal _ _ (set_ipv4-IfSome w p h) e
  Step-IsLegal p (started w e) h = start-IsLegal w p h
  Step-IsLegal p (initialized w jitter) h = do_initialize-IsLegal w jitter p h
  Step-IsLegal p disposed h = do_dispose-IsLegal p h
  Step-IsLegal p (interface_up w i e) h =
      IfSome-of IsLegal _ _ (notify_interface_up-IfSome w i p h) e
  Step-IsLegal p (interface_down w i e) h =
      IfSome-of IsLegal _ _ (notify_interface_down-IfSome w i p h) e
  Step-IsLegal p (address_added w i e) h =
      IfSome-of IsLegal _ _ (notify_add_address-IfSome w i p h) e
  Step-IsLegal p (address_removed w i address e) h =
      IfSome-of IsLegal _ _ (notify_remove_address-IfSome w i address p h) e
  Step-IsLegal p (frame_lost w mac e) h = IfSome-of IsLegal _ _ (notify_tx_error-IfSome w mac p h) e
  Step-IsLegal p (htimer_expired w jitter e) h =
      IfSome-of IsLegal _ _ (hello_timer_expire-IfSome w jitter p h) e
  Step-IsLegal p (ntimer_expired w e) h = IfSome-of IsLegal _ _ (purge_neighbors-IfSome w p h) e
  Step-IsLegal p (received w fuel socket packet sender e) h =
      IfSome-of IsLegal _ _ (recv_bsdv-IfSome w status_of b fuel socket packet sender p h) e
  Step-IsLegal p (sent w packet dst oif err e) h =
      IfSome-of LeavesLegal _ _ (route_output-IfSome w packet dst oif err p h) e
  Step-IsLegal p (arrived w packet header idev ucb lcb ecb e) h =
      IfSome-of HandsOnLegal _ _ (route_input-IfSome w status_of packet header idev ucb lcb ecb p h)
        e

  -- In every state that a node reaches from its construction, by any sequence of events and whatever
  -- the stack answers: the forwarding table, the distance vector table, each distance vector in it and
  -- the two maps of sockets are sorted by their keys; every entry of a table has a route that exists
  -- and whose destination is the key of the entry, though entries share routes and write to them; no
  -- neighbor is marked to be closed, and no address stands for two neighbors; the time of the last
  -- broadcast is 0; and no packet is buffered twice for one destination.
  pub Reach-IsLegal : {p : Protocol} → Reach status_of b p → IsLegal p
  Reach-IsLegal (constructed w second memory) = new_protocol-IsLegal w second memory
  Reach-IsLegal (next {p} r s) = Step-IsLegal p s (Reach-IsLegal r)
