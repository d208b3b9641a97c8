-- ===== src/PacketQueue/Distinct.antt =====
-- model/bsdvr-rqueue.cc: that Dequeue leaves no packet in the vector twice.
use bsdvr_ns.Base.{ℕ, ◌≡◌, ◌∙◌, refl, List, [], ◌∷◌, any, option-both, IfSome, IfSome-of}
use bsdvr_ns.Net.{Address}
use bsdvr_ns.PacketQueue.{
  ForwardingStatus, Status, QueueEntry, PacketQueue, is_duplicate, taken_as, dequeue_loop, dequeue,
}
use bsdvr_ns.PacketQueue.Bound.{AreDistinct}

module _ (status_of : ForwardingStatus → Status) where
  -- The entries are the same but for a status.
  dequeue_loop-any :
      (e : QueueEntry) (dst : Address) (sval : ℕ) (q : List QueueEntry)
      → IfSome
          (λ x. any (is_duplicate e) x.1 ≡ any (is_duplicate e) q)
          (dequeue_loop status_of dst sval q)
  unfolding dequeue_loop
  dequeue_loop-any e dst sval [] = tt
  dequeue_loop-any e dst sval (i ∷ q) =
      let P = IfSome (λ (x : QueueEntry × List QueueEntry).
        any (is_duplicate e) x.1 ≡ any (is_duplicate e) (i ∷ q)) in
      let R =
        λ (x : QueueEntry × List QueueEntry). any (is_duplicate e) x.1 ≡ any (is_duplicate e) q in
      option-both P (taken_as status_of dst sval i)
        (λ _.
          option-both P (dequeue_loop status_of dst sval q) (λ _. tt)
            (λ x z. rw (IfSome-of R _ x (dequeue_loop-any e dst sval q) z) refl))
        (λ s _. refl)

  dequeue_loop-AreDistinct :
      (dst : Address) (sval : ℕ) (q : List QueueEntry)
      → AreDistinct q
      → IfSome (λ x. AreDistinct x.1) (dequeue_loop status_of dst sval q)
  unfolding dequeue_loop
  dequeue_loop-AreDistinct dst sval [] d = tt
  dequeue_loop-AreDistinct dst sval (i ∷ q) d =
      let Q = λ (x : QueueEntry × List QueueEntry). AreDistinct x.1 in
      let P = IfSome Q in
      let R =
        λ (x : QueueEntry × List QueueEntry). any (is_duplicate i) x.1 ≡ any (is_duplicate i) q in
      option-both P (taken_as status_of dst sval i)
        (λ _.
          option-both P (dequeue_loop status_of dst sval q) (λ _. tt)
            (λ x z. (
              IfSome-of R _ x (dequeue_loop-any i dst sval q) z ∙ d.0,
              IfSome-of Q _ x (dequeue_loop-AreDistinct dst sval q d.1) z,
            )))
        (λ s _. d)

  pub dequeue-AreDistinct :
      (dst : Address) (sval : ℕ) (q : PacketQueue)
      → AreDistinct q.queue
      → IfSome (λ x. AreDistinct x.1.queue) (dequeue status_of dst sval q)
  unfolding dequeue
  dequeue-AreDistinct dst sval q d =
      let Q = λ (x : QueueEntry × List QueueEntry). AreDistinct x.1 in
      option-both (IfSome (λ (x : QueueEntry × PacketQueue). AreDistinct x.1.queue))
        (dequeue_loop status_of dst sval q.queue) (λ _. tt)
        (λ x z. IfSome-of Q _ x (dequeue_loop-AreDistinct dst sval q.queue d) z)
