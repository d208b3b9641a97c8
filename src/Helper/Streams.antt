-- ===== src/Helper/Streams.antt =====
-- helper/bsdvr-helper.cc: who gets which stream.
use bsdvr_ns.Base.{
  ℕ, suc, ◌+◌, ◌-◌, ◌≡◌, refl, Bool, true, false, ◌&&◌, Option, none, some, List, [], ◌∷◌, ◌++◌,
  append-nil, append_assoc, length, length-append, All, for_some, arith,
}
use bsdvr_ns.Helper.{
  Routing, no_routing, bsdvr_routing, list_routing, other_routing, Node, Streams, assign_stream,
  assign_in_list, assign_routing, assign_node, assign_streams,
}

-- The BSDVR protocol of a node, which may be the first in a list.
abbrev pub first_agent : List (Option ℕ) → List ℕ
first_agent [] = []
first_agent (some agent ∷ l) = agent ∷ []
first_agent (none ∷ l) = first_agent l

abbrev pub agents_of : Routing → List ℕ
agents_of no_routing = []
agents_of (bsdvr_routing agent) = agent ∷ []
agents_of (list_routing l) = first_agent l
agents_of other_routing = []

abbrev pub agents : List Node → List ℕ
agents [] = []
agents (n ∷ c) = agents_of n.routing ++ agents c

-- The streams from a number on, one for each.
abbrev pub numbered : ℕ → List ℕ → List (ℕ × ℕ)
numbered k [] = []
numbered k (a ∷ l) = (a, k) ∷ numbered (k + 1) l

numbered-append :
    (k : ℕ) (xs ys : List ℕ) → numbered k (xs ++ ys) ≡ numbered k xs ++ numbered (k + length xs) ys
numbered-append k [] ys = let z : k + 0 ≡ k = omega arith in rw z
numbered-append k (x ∷ xs) ys =
    let z : k + 1 + length xs ≡ k + suc (length xs) = omega arith in
    rw (numbered-append (k + 1) xs ys, z)

-- A node with IP and a routing protocol.
abbrev pub is_installed : Routing → Bool
is_installed no_routing = false
is_installed (bsdvr_routing agent) = true
is_installed (list_routing l) = true
is_installed other_routing = true

abbrev pub IsReady : Node → Type 0
IsReady n = (n.has_ipv4 && is_installed n.routing) ≡ true

-- The streams with those for some more protocols.
abbrev with_agents : List ℕ → Streams → Streams
with_agents l (k, calls) = (k + length l, calls ++ numbered k l)

assign_in_list_lem :
    (l : List (Option ℕ)) (s : Streams) → assign_in_list l s ≡ with_agents (first_agent l) s
unfolding assign_in_list assign_stream
assign_in_list_lem [] (k, calls) = let z : k + 0 ≡ k = omega arith in rw (append-nil calls, z)
assign_in_list_lem (some agent ∷ l) (k, calls) = refl
assign_in_list_lem (none ∷ l) s = assign_in_list_lem l s

assign_routing_lem :
    (r : Routing) (s : Streams)
    → is_installed r ≡ true
    → assign_routing r s ≡ some (with_agents (agents_of r) s)
unfolding assign_routing assign_stream
assign_routing_lem no_routing s h = cc
assign_routing_lem (bsdvr_routing agent) (k, calls) h = refl
assign_routing_lem (list_routing l) s h = rw (assign_in_list_lem l s)
assign_routing_lem other_routing (k, calls) h =
    let z : k + 0 ≡ k = omega arith in rw (append-nil calls, z)

with_agents-append :
    (xs ys : List ℕ) (s : Streams) → with_agents ys (with_agents xs s) ≡ with_agents (xs ++ ys) s
with_agents-append xs ys (k, calls) =
    let z : k + length (xs ++ ys) ≡ k + length xs + length ys =
      omega (arith, length-append xs ys) in
    rw
      (numbered-append k xs ys, append_assoc calls (numbered k xs) (numbered (k + length xs) ys), z)

assign_node-with_agents :
    (c : List Node) (s : Streams)
    → All IsReady c
    → for_some assign_node c s ≡ some (with_agents (agents c) s)
unfolding assign_node
assign_node-with_agents [] (k, calls) h =
    let z : k + 0 ≡ k = omega arith in rw (append-nil calls, z)
assign_node-with_agents (n ∷ c) s h =
    let i : n.has_ipv4 ≡ true = ground (arith, h.0) in
    let r : assign_routing n.routing s ≡ some (with_agents (agents_of n.routing) s) =
      assign_routing_lem n.routing s (ground (arith, h.0)) in
    rw (
      i,
      r,
      assign_node-with_agents c (with_agents (agents_of n.routing) s) h.1,
      with_agents-append (agents_of n.routing) (agents c) s,
    )

-- Where every node has IP and a routing protocol, AssignStreams returns: the BSDVR protocols of the
-- nodes, the first one where a node has a list, get the streams from the given one on, each its own
-- and in the order of the nodes, and the result is how many there are.
pub assign_streams-numbered :
    (c : List Node) (stream : ℕ)
    → All IsReady c
    → assign_streams c stream ≡ some (length (agents c), numbered stream (agents c))
unfolding assign_streams
assign_streams-numbered c stream h =
    let z : stream + length (agents c) - stream ≡ length (agents c) = omega arith in
    rw (assign_node-with_agents c (stream, []) h, z)
