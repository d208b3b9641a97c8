-- ===== src/Protocol/Hellos.antt =====
-- model/bsdvr.cc: what HelloTimerExpire and SendHello send.
use mathlib.Core.List.{append-nil, append_assoc}
use mathlib.Core.List.{Mem, mem-cons_self, mem-cons_of_mem}
use bsdvr_ns.Base.{
  Bool-cases, inl, inr, ==_iff, ℕ, suc, ◌+◌, ◌-◌, ◌≡◌, false, some, List, [], ◌∷◌, ◌++◌, ◌==◌, ltb,
  if◌then◌else◌, for_each, length, arith,
}
use bsdvr_ns.Base.Map.{Map, find}
use bsdvr_ns.Net.{Address, InterfaceAddress, World}
use bsdvr_ns.Protocol.{Protocol, Sent, hello_message}
use bsdvr_ns.Protocol.Handlers.{
  hello_to, send_hello, hello_timer_expire, restart_htimer, purge_neighbors,
}

-- The hello that a socket sends, with the draw of its jitter: to all hosts if the address has a mask
-- of 32 bits, and to the broadcast address of its subnet otherwise.
abbrev pub hello_of : ℕ → Address × InterfaceAddress → Sent
hello_of delay (socket, iface) = record {
  socket = socket;
  message = hello_message (record { origin = iface.local; dst = iface.local });
  ttl = 1;
  receiver = if iface.mask == 4294967295 then 4294967295 else iface.broadcast;
  after = delay;
}

-- One hello for each socket, with one draw after the other.
abbrev pub hellos : (ℕ → ℕ) → ℕ → Map InterfaceAddress → List Sent
hellos jitter k [] = []
hellos jitter k (x ∷ m) = hello_of (jitter k) x ∷ hellos jitter (suc k) m

-- Each socket has its hello among them.
pub hellos-Mem :
    (jitter : ℕ → ℕ) (k socket : ℕ) (iface : InterfaceAddress) (m : Map InterfaceAddress)
    → find socket m ≡ some iface
    → (j : ℕ) × Mem (hello_of (jitter j) (socket, iface)) (hellos jitter k m)
unfolding find
hellos-Mem jitter k socket iface [] h = cc
hellos-Mem jitter k socket iface ((t, x) ∷ m) h = elim (Bool-cases (t == socket)) [
  | inl e ↦
      let y : x ≡ iface = ground (arith, e, h) in (k, rw ((==_iff t socket).0 e, y) mem-cons_self)
  | inr e ↦
      let (j, n) = hellos-Mem jitter (suc k) socket iface m (ground (arith, e, h)) in
      (j, mem-cons_of_mem (hello_of (jitter k) (t, x)) n)
]

hellos_loop :
    (jitter : ℕ → ℕ) (m : Map InterfaceAddress) (p : Protocol)
    → for_each (hello_to jitter) m p
      ≡ record p { sent = p.sent ++ hellos jitter p.drawn m; drawn = p.drawn + length m }
unfolding hello_to
hellos_loop jitter [] p = let d : p.drawn + 0 ≡ p.drawn = omega arith in rw (d, append-nil p.sent)
hellos_loop jitter (x ∷ m) p =
    let h = hello_of (jitter p.drawn) x in
    let d : p.drawn + suc (length m) ≡ suc p.drawn + length m = omega arith in
    rw (
      d,
      hellos_loop jitter m (hello_to jitter x p),
      append_assoc p.sent (h ∷ []) (hellos jitter (suc p.drawn) m),
    )

-- When the hello timer goes off, with the time of the last broadcast at 0, and the purge of the
-- neighbors returns, then each socket sends one hello, with a jitter of its own, in the order of
-- the sockets; the timer is set again to the hello interval, and the time of the last broadcast
-- stays 0, so that the next expiry does the same.
pub hello_timer_expire_lem :
    (w : World) (jitter : ℕ → ℕ) (p q : Protocol)
    → p.last_bcast_time ≡ 0
    → purge_neighbors w p ≡ some q
    → hello_timer_expire w jitter p
      ≡ some (record q {
        sent = q.sent ++ hellos jitter q.drawn q.socket_addresses;
        drawn = q.drawn + length q.socket_addresses;
        htimer = record { delay = q.htimer.delay; expires = some (w.now + q.hello_interval) };
        last_bcast_time = 0;
      })
unfolding hello_timer_expire send_hello restart_htimer
hello_timer_expire_lem w jitter p q z e =
    let s : q.hello_interval - 0 ≡ q.hello_interval = omega arith in
    let b : ltb 0 p.last_bcast_time ≡ false = ground (arith, z) in
    rw (b, e, hellos_loop jitter q.socket_addresses q, s)
