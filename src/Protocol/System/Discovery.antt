-- ===== src/Protocol/System/Discovery.antt =====
-- model/bsdvr.cc: that the hello of one node makes it a neighbor of another, over SendHello, the wire and
-- RecvBsdv.
use bsdvr_ns.Base.{
  option-both, ℕ, ◌≡◌, refl, sym, ◌∙◌, true, Option, none, some, arith, Returns, IfSome-of, ==_refl,
  subst,
}
use bsdvr_ns.Base.Map.{Map, find, find-assign, find-All}
use bsdvr_ns.Net.{Routes, Address, InterfaceAddress, World}
use bsdvr_ns.RoutingTable.{
  Entries, RoutingTableEntry, get_destination, lookup_route, set_next_hop, set_output_device,
}
use bsdvr_ns.RoutingTable as Table
use bsdvr_ns.Neighbors.{Neighbors}
use bsdvr_ns.Neighbors.Laws.{has_live}
use bsdvr_ns.Neighbors.Updates.{IsWellFormed}
use bsdvr_ns.Neighbors.Invariant.{update-has_live}
use bsdvr_ns.ControlPlane.Keyed.{IsKeyed}
use bsdvr_ns.ControlPlane.FakeEntries.{entry_at}
use bsdvr_ns.Protocol.{Protocol, compute_changes}
use bsdvr_ns.Protocol.Handlers.{
  on_link_failure, with_neighbors, update_neighbor, vector_of, meet, greet, refresh_route,
  learn_neighbor, process_hello, recv_hello,
}
use bsdvr_ns.Protocol.Greeting.{
  direct_entry, meet-entry_at, set_vector-entry_at, vector_of-entry_at,
}
use bsdvr_ns.Protocol.Sends.{
  all_sent, introduces, having_sent, send_triggered_update_to_neighbor_lem,
}
use bsdvr_ns.Protocol.Sendable.{Keeps}
use bsdvr_ns.Protocol.Completion.{HasReceiver}
use bsdvr_ns.Protocol.Failures.{update_neighbor-Returns}
use bsdvr_ns.Protocol.Liveness.{vector_of-All, meet-Keeps}
use bsdvr_ns.Protocol.System.Handling.{IsLegal, update_neighbor-IfSome}

-- A neighbor in the list, with a route of one hop to it, out by the receiver's interface, in its distance
-- vector.
pub record IsMet (w : World) (origin my : Address) (r : Protocol) : Type 0 where
  pub listed : has_live w origin r.nb.nb ≡ true
  pub direct : RoutingTableEntry
  pub stands : entry_at origin origin r.routing_table.distance_vector_table ≡ some direct
  pub hops_lem : direct.hops ≡ 1
  pub iface_lem : direct.iface ≡ w.address_of (w.interface_for_address my)

with_neighbors-nb :
    (n : Neighbors) (s : Option Protocol) (q : Protocol) → with_neighbors (n, s) ≡ some q → q.nb ≡ n
with_neighbors-nb n none q h = cc
with_neighbors-nb n (some p) q h = ground (arith, h)

find-update :
    (h : Routes) (n : Address) (e x : RoutingTableEntry) (m : Entries)
    → get_destination h e ≡ n
    → find n m ≡ some x
    → find n (Table.update h e m).0 ≡ some e
unfolding Table.update
find-update h n e x m d z =
    let y : find (get_destination h e) m ≡ some x = rw d z in
    rw (Table.update, y) (find-assign n (get_destination h e) e m ∙ rw (d, ==_refl n) refl)

module _ (w : World) (m : Map InterfaceAddress) where
  update_neighbor-has_live :
      (origin : Address) (expire : ℕ) (p q : Protocol)
      → IsWellFormed p.nb
      → update_neighbor w origin expire p ≡ some q
      → has_live w origin q.nb.nb ≡ true
  unfolding update_neighbor
  update_neighbor-has_live origin expire p q v h =
      let e = with_neighbors-nb _ _ q h in
      rw e (
        update-has_live w (some (on_link_failure w)) origin origin expire p.nb _ v
        ∙ rw (==_refl origin) refl)

  meet-IsMet :
      (origin my : Address) (p : Protocol)
      → find origin (vector_of origin p.routing_table) ≡ none
      → has_live w origin p.nb.nb ≡ true
      → IsMet w origin my (meet w origin my p)
  unfolding meet compute_changes
  meet-IsMet origin my p z n =
      let t = p.routing_table in
      let g = sym (vector_of-entry_at origin origin t) ∙ z in
      record {
        listed = n;
        direct = direct_entry w my p;
        stands = meet-entry_at w origin my origin p g ∙ rw (==_refl origin) refl;
        hops_lem = refl;
        iface_lem = refl;
      }

  refresh_route-IsMet :
      (origin my : Address) (e : RoutingTableEntry) (p : Protocol)
      → find origin (vector_of origin p.routing_table) ≡ some e
      → get_destination p.routing_table.routes e ≡ origin
      → has_live w origin p.nb.nb ≡ true
      → IsMet w origin my (refresh_route w origin my e p)
  unfolding refresh_route Table.update set_next_hop set_output_device
  refresh_route-IsMet origin my e p z k n =
      let t = p.routing_table in
      let i = w.interface_for_address my in
      let e' = record e { iface = w.address_of i; hops = 1 } in
      let h = set_next_hop origin e (set_output_device (w.net_device i) e t.routes) in
      let dv = (Table.update h e' (vector_of origin t)).0 in
      let g : get_destination h e' ≡ origin = ground (arith, k) in
      let y : find origin dv ≡ some e' = find-update h origin e' e (vector_of origin t) g z in
      record {
        listed = n;
        direct = e';
        stands = set_vector-entry_at origin origin dv (record t { routes = h }) ∙ y;
        hops_lem = refl;
        iface_lem = refl;
      }

  learn_neighbor-IsMet :
      (origin my : Address) (p : Protocol)
      → HasReceiver w m my
      → Keeps m p
      → IsLegal p
      → has_live w origin p.nb.nb ≡ true
      → Returns (IsMet w origin my) (learn_neighbor w origin my p)
  unfolding learn_neighbor greet lookup_route
  learn_neighbor-IsMet origin my p s c l n =
      let u = p.routing_table in
      option-both (Returns (IsMet w origin my)) (find origin (vector_of origin u))
        (λ z.
          let q = meet w origin my p in
          let (_, k) = meet-Keeps w m origin my p s c in
          let x = meet-IsMet origin my p z n in
          (
            having_sent q (all_sent (introduces w q origin) q.routing_table.forwarding_table),
            send_triggered_update_to_neighbor_lem w origin q k.sends.0,
            record {
              listed = x.listed;
              direct = x.direct;
              stands = x.stands;
              hops_lem = x.hops_lem;
              iface_lem = x.iface_lem;
            },
          ))
        (λ e z.
          let vector = vector_of-All (IsKeyed u.routes) origin u l.0.0.1.2 in
          let k = find-All (IsKeyed u.routes) origin e (vector_of origin u) vector z in
          (refresh_route w origin my e p, refl, refresh_route-IsMet origin my e p z k.1 n))

  pub recv_hello-IsMet :
      (origin my : Address) (p : Protocol)
      → p.enable_hello ≡ true
      → HasReceiver w m my
      → Keeps m p
      → IsLegal p
      → Returns (IsMet w origin my) (recv_hello w (record { origin = origin; dst = origin }) my p)
  unfolding recv_hello process_hello
  recv_hello-IsMet origin my p h s c l =
      let (q, e, k) = update_neighbor-Returns w m origin p.hello_interval p c in
      let g = IfSome-of IsLegal _ q (update_neighbor-IfSome w origin p.hello_interval p l) e in
      let n = update_neighbor-has_live origin p.hello_interval p q l.1 e in
      let y : recv_hello w (record { origin = origin; dst = origin }) my p
          ≡ learn_neighbor w origin my q =
        ground (arith, h, e, ==_refl origin) in
      subst (Returns (IsMet w origin my)) (sym y) (learn_neighbor-IsMet origin my q s k g n)
