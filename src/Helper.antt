-- ===== src/Helper.antt =====
-- helper/bsdvr-helper.cc: BsdvrHelper::AssignStreams, which gives the protocol of each node a random
-- number stream of its own. A protocol is a number; streams are not negative. The state is what
-- currentStream holds, and the calls of RoutingProtocol::AssignStreams with their streams.
pub mod Streams
mod Tests
use bsdvr_ns.Base.{
  ℕ, ◌+◌, ◌-◌, Bool, true, false, not, Option, none, some, List, [], ◌∷◌, ◌++◌, if◌then◌else◌,
  and_then, for_some,
}

-- What GetRoutingProtocol returns: null, a BSDVR protocol, a list of protocols (`none` for one that is
-- not BSDVR), or any other.
pub data Routing : Type 0 where
  no_routing : Routing
  bsdvr_routing : ℕ → Routing
  list_routing : List (Option ℕ) → Routing
  other_routing : Routing

pub record Node : Type 0 where
  pub has_ipv4 : Bool
  pub routing : Routing

abbrev pub Streams : Type 0
Streams = ℕ × List (ℕ × ℕ)

-- RoutingProtocol::AssignStreams returns 1.
unfoldable pub assign_stream : ℕ → Streams → Streams
assign_stream agent (current, calls) = (current + 1, calls ++ (agent, current) ∷ [])

-- The loop over a list of protocols ends at the first that is BSDVR.
unfoldable pub assign_in_list : List (Option ℕ) → Streams → Streams
assign_in_list [] s = s
assign_in_list (some agent ∷ l) s = assign_stream agent s
assign_in_list (none ∷ l) s = assign_in_list l s

unfoldable pub assign_routing : Routing → Streams → Option Streams
unfolding assign_in_list
assign_routing no_routing s = none
assign_routing (bsdvr_routing agent) s = some (assign_stream agent s)
assign_routing (list_routing l) s = some (assign_in_list l s)
assign_routing other_routing s = some s

-- The body of the loop over the nodes, with its two assertions.
unfoldable pub assign_node : Node → Streams → Option Streams
assign_node n s = if n.has_ipv4 then assign_routing n.routing s else none

-- The result, and the calls.
unfoldable pub assign_streams : List Node → ℕ → Option Streams
assign_streams c stream =
    and_then (for_some assign_node c (stream, []))
      (λ (current, calls). some (current - stream, calls))
