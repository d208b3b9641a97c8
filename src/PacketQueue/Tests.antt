-- ===== src/PacketQueue/Tests.antt =====
-- A vector of two packets, with a constructor of Status that ignores its argument.
use bsdvr_ns.Base.{◌≡◌, ◌⊎◌, refl, true, false, none, some, List, ◌∷◌, ◌++◌, any, arith}
use bsdvr_ns.PacketQueue.{not_forwarded, QueueEntry, drop_policy, enqueue, dequeue}
use bsdvr_ns.Samples.{careless, queued, buffer}
use bsdvr_ns.PacketQueue.Policy.{Picks, drop_policy_lem}
use bsdvr_ns.PacketQueue.Bound.{IsWellFormed, enqueue-IsWellFormed}
use bsdvr_ns.PacketQueue.Buffer.{waits, marked, dequeue_lem}

drop_policy_lem_example :
    Picks careless (buffer careless).queue (drop_policy careless (buffer careless).queue)
drop_policy_lem_example = drop_policy_lem careless (buffer careless).queue

enqueue-IsWellFormed_example :
    IsWellFormed (enqueue careless (queued careless 12 7 not_forwarded) (buffer careless)).1
enqueue-IsWellFormed_example =
    enqueue-IsWellFormed careless (queued careless 12 7 not_forwarded) (buffer careless)
      (omega arith, (refl, (refl, tt)))

dequeue_lem_example :
    ((any (waits careless 7 1) (buffer careless).queue ≡ false)
      × (dequeue careless 7 1 (buffer careless) ≡ none))
    ⊎ ((i : QueueEntry) × (before after : List QueueEntry) × ((buffer careless).queue
          ≡ before ++ i ∷ after)
        × (any (waits careless 7 1) before ≡ false)
        × (waits careless 7 1 i ≡ true)
        × (dequeue careless 7 1 (buffer careless)
            ≡ some (
              marked careless 7 1 i,
              record (buffer careless) { queue = before ++ marked careless 7 1 i ∷ after },
            )))
dequeue_lem_example = dequeue_lem careless 7 1 (buffer careless)
