-- ===== src/Protocol/System/Sending.antt =====
-- model/bsdvr.cc: what the updates that are sent, and the two callbacks, leave untouched.
use bsdvr_ns.Base.{
  ◌<◌, not, ◌&&◌, Option, List, [], ◌∷◌, ◌==◌, contains, if-both, option-both, IfSome,
  and_then-IfSome, for_some-IfSome,
}
use bsdvr_ns.Base.Map.{find, find-All}
use bsdvr_ns.Net.{Address, World}
use bsdvr_ns.RoutingTable.{
  inactive, active, state_eq, get_next_hop, RoutingTableEntry, RoutingTable, get_destination,
  set_route_state,
}
use bsdvr_ns.Neighbors.{Neighbor}
use bsdvr_ns.PendingReplies.{PendingReplyEntry}
use bsdvr_ns.ControlPlane.{is_in, update_distance_vector_table}
use bsdvr_ns.ControlPlane.Legal.{
  AreLegal, compute_forwarding_table-AreLegal, update_distance_vector_table-AreLegal,
  vector_of-IsLegal,
}
use bsdvr_ns.ControlPlane.Keyed.{IsKeyed}
use bsdvr_ns.Protocol.{
  Protocol, Sent, loopback, is_filtered, find_socket, send_update, send_entry,
  send_triggered_update_to_neighbor, send_change, send_changes,
  send_triggered_update_changes_to_neighbors, compute_changes, record_failure, fail_route,
  send_update_on_link_failure, send_update_on_pending_reply_entry_timeout,
}
use bsdvr_ns.Protocol.Handlers.{on_link_failure, on_timeout}

-- A property of the state that implies legal tables, and that does not depend on what was sent or on
-- which legal tables the state has.
pub record IsKept (P : Protocol → Type 0) : Type 0 where
  pub tables : (p : Protocol) → P p → AreLegal p.routing_table
  pub keep_tables :
      (p : Protocol) (t : RoutingTable) → P p → AreLegal t → P (record p { routing_table = t })
  pub keep_sent : (p : Protocol) (s : List Sent) → P p → P (record p { sent = s })

module _ (P : Protocol → Type 0) (k : IsKept P) where
  pub send_update-IfSome :
      (e : RoutingTableEntry) (ne : Address) (p : Protocol) → P p → IfSome P (send_update e ne p)
  unfolding send_update
  send_update-IfSome e ne p h =
      option-both (IfSome P) (find_socket e.iface p.socket_addresses) (λ _. tt)
        (λ socket _. k.keep_sent p _ h)

  send_entry-IfSome :
      (w : World) (ne : Address) (x : Address × RoutingTableEntry) (p : Protocol)
      → P p
      → IfSome P (send_entry w ne x p)
  unfolding send_entry
  send_entry-IfSome w ne (dst, e) p h =
      if-both (IfSome P) (get_destination p.routing_table.routes e == w.no_address) (λ _. h)
        (λ _.
          if-both (IfSome P)
            (not (dst == p.main_address) && (not (dst == ne) && not (dst == loopback)))
            (λ _. send_update-IfSome e ne p h) (λ _. h))

  pub send_triggered_update_to_neighbor-IfSome :
      (w : World) (ne : Address) (p : Protocol)
      → P p
      → IfSome P (send_triggered_update_to_neighbor w ne p)
  unfolding send_triggered_update_to_neighbor
  send_triggered_update_to_neighbor-IfSome w ne p h =
      for_some-IfSome P (send_entry w ne) (send_entry-IfSome w ne) p.routing_table.forwarding_table
        p h

  send_change-IfSome : (ne dst : Address) (p : Protocol) → P p → IfSome P (send_change ne dst p)
  unfolding send_change
  send_change-IfSome ne dst p h =
      option-both (IfSome P) (find dst p.routing_table.forwarding_table) (λ _. h)
        (λ e _. if-both (IfSome P) (dst == ne) (λ _. h) (λ _. send_update-IfSome e ne p h))

  send_changes-IfSome :
      (changes nex : List Address) (i : Neighbor) (p : Protocol)
      → P p
      → IfSome P (send_changes changes nex i p)
  unfolding send_changes
  send_changes-IfSome changes nex i p h =
      if-both (IfSome P) (contains i.neighbor_address nex) (λ _. h)
        (λ _.
          for_some-IfSome P (send_change i.neighbor_address) (send_change-IfSome i.neighbor_address)
            changes p h)

  pub send_triggered_update_changes_to_neighbors-IfSome :
      (changes nex : List Address) (p : Protocol)
      → P p
      → IfSome P (send_triggered_update_changes_to_neighbors changes nex p)
  unfolding send_triggered_update_changes_to_neighbors
  send_triggered_update_changes_to_neighbors-IfSome changes nex p h =
      for_some-IfSome P (send_changes changes nex) (send_changes-IfSome changes nex) p.nb.nb p h

  pub compute_changes-kept : (w : World) (p : Protocol) → P p → P (compute_changes w p).1
  unfolding compute_changes
  compute_changes-kept w p h =
      k.keep_tables p _ h
        (compute_forwarding_table-AreLegal w p.main_address p.nb.nb p.routing_table (k.tables p h))

  fail_route-IfSome :
      (w : World) (ne : Address) (e : RoutingTableEntry) (p : Protocol)
      → e.ipv4_route < p.routing_table.routes.fresh
      → P p
      → IfSome P (fail_route w ne e p)
  unfolding fail_route record_failure
  fail_route-IfSome w ne e p l h =
      let t =
        update_distance_vector_table w ne (set_route_state inactive e) p.nb.nb p.routing_table in
      let q = record p { routing_table = t } in
      let h' = k.keep_tables p t h (
        update_distance_vector_table-AreLegal w ne (set_route_state inactive e) p.nb.nb
          p.routing_table l (k.tables p h)) in
      send_triggered_update_changes_to_neighbors-IfSome (compute_changes w q).0 (ne ∷ [])
        (compute_changes w q).1 (compute_changes-kept w q h')

  send_update_on_link_failure-IfSome :
      (w : World) (ne : Address) (p : Protocol)
      → P p
      → IfSome P (send_update_on_link_failure w ne p)
  unfolding send_update_on_link_failure
  send_update_on_link_failure-IfSome w ne p h =
      if-both (IfSome P) (is_filtered ne) (λ _. h)
        (λ _.
          option-both (IfSome P) (find ne p.routing_table.distance_vector_table) (λ _. h)
            (λ dv z.
              let vector = (vector_of-IsLegal ne dv p.routing_table (k.tables p h) z).1 in
              option-both (IfSome P) (find ne dv) (λ _. h)
                (λ e y.
                  let i = find-All (IsKeyed p.routing_table.routes) ne e dv vector y in
                  fail_route-IfSome w ne e p i.0 h)))

  send_update_on_pending_reply_entry_timeout-IfSome :
      (en : PendingReplyEntry) (p : Protocol)
      → P p
      → IfSome P (send_update_on_pending_reply_entry_timeout en p)
  unfolding send_update_on_pending_reply_entry_timeout
  send_update_on_pending_reply_entry_timeout-IfSome en p h =
      if-both (IfSome P) (is_filtered en.neighbor) (λ _. h)
        (λ _.
          option-both (IfSome P) (find en.destination p.routing_table.forwarding_table) (λ _. h)
            (λ e _.
              if-both (IfSome P)
                (is_in en.neighbor p.nb.nb
                  && (state_eq e.state active
                      && not (get_next_hop p.routing_table.routes e == en.neighbor)))
                (λ _. send_update-IfSome e en.neighbor p h) (λ _. h)))

  pub on_link_failure-IfSome :
      (w : World) (ne : Address) (s : Option Protocol)
      → IfSome P s
      → IfSome P (on_link_failure w ne s)
  on_link_failure-IfSome w ne s h =
      and_then-IfSome P P s _ h (send_update_on_link_failure-IfSome w ne)

  pub on_timeout-IfSome :
      (en : PendingReplyEntry) (s : Option Protocol) → IfSome P s → IfSome P (on_timeout en s)
  on_timeout-IfSome en s h =
      and_then-IfSome P P s _ h (send_update_on_pending_reply_entry_timeout-IfSome en)
