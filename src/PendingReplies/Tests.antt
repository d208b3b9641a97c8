-- ===== src/PendingReplies/Tests.antt =====
-- The pending reply queue with room for two entries, at time 100.
use bsdvr_ns.Base.{ℕ, ◌≡◌, refl, Bool, true, not, some, List, [], ◌∷◌, ◌++◌, reject, arith}
use bsdvr_ns.PendingReplies.{PendingReplyEntry, PendingReplyQueue, is_expired, enqueue}
use bsdvr_ns.PendingReplies.Enqueue.{has_pair, IsWellFormed, enqueue_lem}
use bsdvr_ns.Samples.{world}

abbrev reply : ℕ → ℕ → ℕ → PendingReplyEntry
reply ne dst time = record { neighbor = ne; destination = dst; time = time }

-- The first entry has expired.
abbrev replies : PendingReplyQueue
replies = record { prqueue = reply 2 7 90 ∷ reply 3 7 110 ∷ []; max_len = 2; timeout = 5 }

abbrev note : PendingReplyEntry → List PendingReplyEntry → List PendingReplyEntry
note e s = s ++ e ∷ []

replies-IsWellFormed : IsWellFormed replies
replies-IsWellFormed = record {
  distinct = (refl, (refl, tt));
  bounded = omega arith;
  roomy = omega arith;
}

enqueue_lem_example :
    (done : Bool) × (after : PendingReplyQueue) × (t : List PendingReplyEntry) × (enqueue world
        (some note)
        (reply 2 8 0)
        replies
        []
      ≡ some (done, after, t))
    × IsWellFormed after
    × (has_pair (reply 2 8 0) after.prqueue ≡ true)
    × (done ≡ not (has_pair (reply 2 8 0) (reject (is_expired world) replies.prqueue)))
enqueue_lem_example = enqueue_lem world (some note) (reply 2 8 0) replies [] replies-IsWellFormed
