-- ===== src/Tests/Threads.antt =====
-- The refresh worker, the liveness poll, and two requests at once.
use pygt.Base.{
  ℕ, ◌≡◌, ◌≢◌, refl, none, some, text, true, false, Option, List, [], ◌∷◌, ◌+◌, list_beq,
  list_beq_iff, arith, list_eq, nat_eq, ◌==◌, if◌then◌else◌,
}
use pygt.Base.Dict.{put}
use pygt.Values.{str}
use pygt.Scheduler.{Task, Scheduler, submit, take_task}
use pygt.Scheduler.Steps.{
  System, in_loop, waiting, draining, handling, crashed, started, go_on, wake, take, raised, work,
  submits, Run, here, next,
}
use pygt.Scheduler.Drain.{Run-crashed}
use pygt.Link.Race.{
  polling, key_error, Shared, both_before, by_first, by_second, SharedRun, start, extend, post,
  SharedRun-safe, SharedRun-clash,
}

abbrev full : Task
full = record { type = text "full"; fx_type = []; fx_id = str [] }

abbrev submitted_once : System
submitted_once = record started { scheduler = submit full started.scheduler; submitted = full ∷ [] }

submits_once : Run started submitted_once
submits_once = next here (submits full refl)

-- A task is submitted, the worker takes it, and its handler raises.
abbrev awake : System
awake = record submitted_once { worker = waiting }

abbrev draining_once : System
draining_once = record submitted_once { worker = draining in_loop }

abbrev emptied : Scheduler
emptied = record { queue = []; event = true; stopped = false }

abbrev handling_once : System
handling_once = record submitted_once {
  scheduler = emptied;
  worker = handling in_loop full;
  dispatched = full ∷ [];
}

abbrev fallen : System
fallen = record handling_once { worker = crashed }

abbrev fallen_submitted : System
fallen_submitted = record fallen {
  scheduler = submit full fallen.scheduler;
  submitted = full ∷ full ∷ [];
}

handles_once : Run started handling_once
unfolding submit take_task
handles_once =
    next
      (next (next submits_once (work {t = awake} (go_on refl refl refl)))
        (work {t = draining_once} (wake refl refl refl)))
      (work (take in_loop full emptied refl refl refl))

Run-crashed_example :
    (fallen_submitted.dispatched ≡ full ∷ [])
    × (full ∷ fallen_submitted.scheduler.queue ≡ full ∷ full ∷ [])
Run-crashed_example =
    Run-crashed {t = fallen} handles_once tt (raised in_loop full refl refl)
      (next here (submits full refl)) (tt, tt)

-- A device that answers twice, counted by its state.
abbrev polled : ℕ → Option (List ℕ) × ℕ
polled n = (if n == 0 then some (0 ∷ []) else none, n + 1)

abbrev address1 : List ℕ
address1 = 16 ∷ 0 ∷ 18 ∷ 0 ∷ []

abbrev address2 : List ℕ
address2 = 16 ∷ 0 ∷ 18 ∷ 1 ∷ []

abbrev both_polling : Shared
both_polling = record {
  first = polling;
  second = polling;
  pending = (address1, none) ∷ (address2, none) ∷ [];
}

both_post : SharedRun address1 address2 (both_before []) both_polling
unfolding put list_beq
both_post = extend (extend start (by_first post)) (by_second post)

address1-address2 : address1 ≢ address2
unfolding list_beq
address1-address2 e = absurd (ground (arith, list_beq_iff address1 address2))

SharedRun-safe_example : (polling ≢ key_error) × (polling ≢ key_error)
SharedRun-safe_example =
    SharedRun-safe address1 address2 [] {t = both_polling} address1-address2 both_post

SharedRun-clash_example :
    (t : Shared) × SharedRun address1 address1 (both_before []) t × (t.second ≡ key_error)
SharedRun-clash_example = SharedRun-clash address1 (5 ∷ [])
