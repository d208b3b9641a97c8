-- ===== src/Protocol/System/Lasting.antt =====
-- model/bsdvr.cc: what holds as long as a node keeps its interfaces.
use bsdvr_ns.Base.{
  ◌≡◌, ◌<◌, Option, some, List, [], ◌∷◌, arith, IfSome-of, Returns, for_each, for_each_inv, subst,
}
use bsdvr_ns.Net.{World}
use bsdvr_ns.Packet.{Wire}
use bsdvr_ns.PacketQueue.{ForwardingStatus, Status}
use bsdvr_ns.Protocol.{Protocol}
use bsdvr_ns.Protocol.Start.{new_protocol}
use bsdvr_ns.Protocol.Interfaces.{set_ipv4}
use bsdvr_ns.Protocol.Sendable.{IsReady}
use bsdvr_ns.Protocol.System.{
  Setting, set, Step, configured, ipv4_set, started, initialized, disposed, interface_up,
  interface_down, address_added, address_removed, frame_lost, htimer_expired, ntimer_expired,
  received, sent, arrived, Reach, constructed, next,
}
use bsdvr_ns.Protocol.System.Alive.{
  hello_timer, neighbor_timer, lost_frame, IsCalm, Alive, installed, lived,
}
use bsdvr_ns.Protocol.System.Staying.{
  set-IsReady, do_initialize-IsReady, start-IsReady, notify_interface_up-IsReady,
  notify_add_address-IsReady,
}
use bsdvr_ns.Protocol.System.Responding.{handle-Returns, recv_bsdv-IfSome}
use bsdvr_ns.Protocol.System.Installing.{IsNew, set-IsNew, new_protocol-IsNew, set_ipv4-IsReady}
use bsdvr_ns.Protocol.System.Routing.{
  LeavesReady, HandsOnReady, route_output-IsReady, route_input-IsReady,
}

-- A result that a handler returns is the one that it returns.
Returns-at :
    (P : Protocol → Type 0) (o : Option Protocol) (q : Protocol) → Returns P o → o ≡ some q → P q
Returns-at P o q (r, z, h) e = let y : r ≡ q = ground (arith, z, e) in subst P y h

module _ (status_of : ForwardingStatus → Status) (b : Wire) where
  set_ipv4-twice : (w : World) (p q : Protocol) → IsReady p → set_ipv4 w p ≡ some q → IsReady q
  unfolding set_ipv4
  set_ipv4-twice w p q r e = absurd (ground (arith, e, r.with_ipv4))

  Step-IsReady :
      (p : Protocol) {q : Protocol} (s : Step status_of b p q)
      → IsCalm status_of b p s
      → IsReady p
      → IsReady q
  Step-IsReady p (configured s) c r = set-IsReady s p c r
  Step-IsReady p {q} (ipv4_set w e) c r = set_ipv4-twice w p q r e
  Step-IsReady p (started w e) c r = start-IsReady w p r
  Step-IsReady p (initialized w jitter) c r = do_initialize-IsReady w jitter p r
  Step-IsReady p disposed c r = absurd c
  Step-IsReady p (interface_up w i e) c r =
      IfSome-of IsReady _ _ (notify_interface_up-IsReady w i p c r) e
  Step-IsReady p (interface_down w i e) c r = absurd c
  Step-IsReady p (address_added w i e) c r =
      IfSome-of IsReady _ _ (notify_add_address-IsReady w i p c r) e
  Step-IsReady p (address_removed w i address e) c r = absurd c
  Step-IsReady p (frame_lost w mac e) c r =
      Returns-at IsReady _ _ (handle-Returns w status_of b (lost_frame mac) p c r) e
  Step-IsReady p (htimer_expired w jitter e) c r =
      Returns-at IsReady _ _ (handle-Returns w status_of b (hello_timer jitter) p c r) e
  Step-IsReady p (ntimer_expired w e) c r =
      Returns-at IsReady _ _ (handle-Returns w status_of b neighbor_timer p c r) e
  Step-IsReady p (received w fuel socket packet sender e) c r =
      IfSome-of IsReady _ _ (recv_bsdv-IfSome w status_of b fuel socket packet sender p c.0 c.1 r) e
  Step-IsReady p (sent w packet dst oif err e) c r =
      IfSome-of LeavesReady _ _ (route_output-IsReady w packet dst oif err p r) e
  Step-IsReady p (arrived w packet header idev ucb lcb ecb e) c r =
      IfSome-of HandsOnReady _ _
        (route_input-IsReady w status_of packet header idev ucb lcb ecb p r) e

  -- A node that is alive, as the header says, is ready, whatever the constructor of Status leaves:
  -- whatever has happened to it, there is a socket for each entry of its tables that SendUpdate can be called
  -- for, and its pending reply queue and its packet buffer are within their lengths and hold no pair
  -- and no packet twice.
  pub Alive-IsReady : {p : Protocol} → Alive status_of b p → IsReady p
  Alive-IsReady (installed w second memory settings l e) =
      IfSome-of (λ q. 0 < q.prqueue.max_len → IsReady q) _ _
        (set_ipv4-IsReady w (for_each set settings (new_protocol w second memory)) (
          for_each_inv IsNew set set-IsNew settings (new_protocol w second memory)
            (new_protocol-IsNew w second memory)))
        e l
  Alive-IsReady (lived {p} a s c) = Step-IsReady p s c (Alive-IsReady a)

-- What is alive is reached.
configured-Reach :
    (status_of : ForwardingStatus → Status) (b : Wire) (settings : List Setting) (p : Protocol)
    → Reach status_of b p
    → Reach status_of b (for_each set settings p)
configured-Reach status_of b [] p r = r
configured-Reach status_of b (s ∷ settings) p r =
    configured-Reach status_of b settings (set s p) (next r (configured s))

pub Alive-Reach :
    (status_of : ForwardingStatus → Status) (b : Wire) {p : Protocol}
    → Alive status_of b p
    → Reach status_of b p
Alive-Reach status_of b (installed w second memory settings l e) =
    next
      (configured-Reach status_of b settings (new_protocol w second memory)
        (constructed w second memory))
      (ipv4_set w e)
Alive-Reach status_of b (lived a s c) = next (Alive-Reach status_of b a) s
