-- ===== src/Helper/Tests.antt =====
-- A node with BSDVR in a list, one without it, and one with BSDVR.
use bsdvr_ns.Base.{◌≡◌, refl, true, some, none, List, [], ◌∷◌}
use bsdvr_ns.Helper.{Node, bsdvr_routing, list_routing, other_routing, assign_streams}
use bsdvr_ns.Helper.Streams.{assign_streams-numbered}

abbrev three_nodes : List Node
three_nodes =
    record { has_ipv4 = true; routing = list_routing (none ∷ some 4 ∷ some 5 ∷ []) }
    ∷ record { has_ipv4 = true; routing = other_routing }
    ∷ record { has_ipv4 = true; routing = bsdvr_routing 6 }
    ∷ []

assign_streams-numbered_example : assign_streams three_nodes 10 ≡ some (2, (4, 10) ∷ (6, 11) ∷ [])
assign_streams-numbered_example = assign_streams-numbered three_nodes 10 (refl, (refl, (refl, tt)))
