-- ===== src/Scheduler/Drain.antt =====
-- pygt1000/refresh_scheduler.py: `drain` with no other thread, and an exception of a handler.
use pygt.Base.{◌≡◌, refl, sym, ap, subst, ◌∙◌, false, none, some, List, [], ◌∷◌, ◌++◌, All}
use pygt.Scheduler.{Task, Scheduler, take_task, drain_rounds, drain}
use pygt.Scheduler.Steps.{
  System, Worker, starting, testing, waiting, draining, handling, stopping, returned, crashed,
  started, WorkerStep, spawn, go_on, leave, wake, time_out, take, finish, handled, signal, Raises,
  raised, Step, work, raises, turns, submits, starts, stops, drains, Run, here, next,
}
use pygt.Scheduler.Safety.{Run-IsSound}

take_task-cons :
    (t : Task) (q : List Task) (s : Scheduler)
    → s.queue ≡ t ∷ q
    → take_task s ≡ (some t, record s { queue = q })
unfolding take_task
take_task-cons t q s h = rw h refl

take_task-nil :
    (s : Scheduler) → s.queue ≡ [] → take_task s ≡ (none, record s { queue = []; event = false })
unfolding take_task
take_task-nil s h = rw h cc

drain_rounds-queue :
    (q : List Task) (s : Scheduler)
    → s.queue ≡ q
    → drain_rounds q s ≡ (q, record s { queue = []; event = false })
unfolding drain_rounds take_task
drain_rounds-queue [] s h = simp (take_task-nil s h)
drain_rounds-queue (t ∷ q) s h =
    simp (take_task-cons t q s h, drain_rounds-queue q (record s { queue = q }) refl)

-- `drain` dispatches every queued task, in submission order, and leaves the queue empty and the event cleared.
drain-queue : (s : Scheduler) → drain s ≡ (s.queue, record s { queue = []; event = false })
unfolding drain
drain-queue s = drain_rounds-queue s.queue s refl

-- A thread that takes no task any more: it is gone, or in `stop`.
abbrev pub IsGone : Worker → Type 0
IsGone starting = ⊥
IsGone testing = ⊥
IsGone waiting = ⊥
IsGone (draining caller) = ⊥
IsGone (handling caller task) = ⊥
IsGone stopping = Unit
IsGone returned = Unit
IsGone crashed = Unit

-- Neither start nor drain is called.
abbrev pub IsQuietStep : {s t : System} → Step s t → Type 0
IsQuietStep (work w) = Unit
IsQuietStep (raises w) = Unit
IsQuietStep (turns before after w h e) = Unit
IsQuietStep (submits task e) = Unit
IsQuietStep (starts e) = ⊥
IsQuietStep (stops e) = Unit
IsQuietStep (drains e) = ⊥

abbrev pub IsQuiet : {s t : System} → Run s t → Type 0
IsQuiet here = Unit
IsQuiet (next r st) = IsQuiet r × IsQuietStep st

-- Every thread is gone, and nothing was handed to a handler since `log`.
record IsStill (log : List Task) (s : System) : Type 0 where
  focus : IsGone s.worker
  around : All IsGone s.others
  same : s.dispatched ≡ log

WorkerStep-IsStill :
    (log : List Task) {s t : System} → WorkerStep s t → IsStill log s → IsStill log t
WorkerStep-IsStill log (spawn w e) i = absurd (subst IsGone w i.focus)
WorkerStep-IsStill log (go_on w st e) i = absurd (subst IsGone w i.focus)
WorkerStep-IsStill log (leave w st e) i = absurd (subst IsGone w i.focus)
WorkerStep-IsStill log (wake w ev e) i = absurd (subst IsGone w i.focus)
WorkerStep-IsStill log (time_out w ev e) i = absurd (subst IsGone w i.focus)
WorkerStep-IsStill log (take caller task rest w h e) i = absurd (subst IsGone w i.focus)
WorkerStep-IsStill log (finish caller rest w h e) i = absurd (subst IsGone w i.focus)
WorkerStep-IsStill log (handled caller task w e) i = absurd (subst IsGone w i.focus)
WorkerStep-IsStill log (signal w e) i =
    subst (IsStill log) (sym e) (record { focus = tt; around = i.around; same = i.same })

Raises-IsStill :
    (log : List Task) {s t : System}
    → Raises s t
    → All IsGone s.others
    → s.dispatched ≡ log
    → IsStill log t
Raises-IsStill log (raised caller task w e) others same =
    subst (IsStill log) (sym e) (record { focus = tt; around = others; same = same })

All-swap :
    (before after : List Worker) (w v : Worker)
    → All IsGone (before ++ w ∷ after)
    → IsGone v
    → All IsGone (before ++ v ∷ after) × IsGone w
All-swap [] after w v h k = ((k, h.1), h.0)
All-swap (u ∷ before) after w v h k =
    let (rest, gone) = All-swap before after w v h.1 k in ((h.0, rest), gone)

Step-IsStill :
    (log : List Task) {s t : System} (st : Step s t)
    → IsQuietStep st
    → IsStill log s
    → IsStill log t
Step-IsStill log (work w) q i = WorkerStep-IsStill log w i
Step-IsStill log (raises w) q i = Raises-IsStill log w i.around i.same
Step-IsStill log {s} (turns before after w h e) q i =
    let (rest, gone) =
      All-swap before after w s.worker (subst (λ l. All IsGone l) h i.around) i.focus in
    subst (IsStill log) (sym e) (record { focus = gone; around = rest; same = i.same })
Step-IsStill log (submits task e) q i =
    subst (IsStill log) (sym e) (record { focus = i.focus; around = i.around; same = i.same })
Step-IsStill log (starts e) q i = absurd q
Step-IsStill log (stops e) q i =
    subst (IsStill log) (sym e) (record { focus = tt; around = (i.focus, i.around); same = i.same })
Step-IsStill log (drains e) q i = absurd q

Run-IsStill :
    (log : List Task) {s t : System} (r : Run s t) → IsQuiet r → IsStill log s → IsStill log t
Run-IsStill log here q i = i
Run-IsStill log (next r st) q i = Step-IsStill log st q.1 (Run-IsStill log r q.0 i)

Run-append : {s t u : System} → Run s t → Run t u → Run s u
Run-append r here = r
Run-append r (next r' st) = next (Run-append r r') st

-- Take a state that a run reaches in which the other threads are gone or in `stop`, and a handler that raises in it.
-- However the run goes on, with no call of start or drain, no task is handed to a handler any more: the tasks that were
-- handed on before and the queue are all that was submitted.
pub Run-crashed :
    {s t u : System}
    → Run started s
    → All IsGone s.others
    → Raises s t
    → (r : Run t u) → IsQuiet r
    → (u.dispatched ≡ s.dispatched) × (s.dispatched ++ u.scheduler.queue ≡ u.submitted)
Run-crashed {s} {t} {u} r others w later quiet =
    let i = Run-IsStill s.dispatched later quiet (Raises-IsStill s.dispatched w others refl) in
    let sound = Run-IsSound (Run-append (next r (raises w)) later) in
    (i.same, ap (λ d. d ++ u.scheduler.queue) (sym i.same) ∙ sound.in_order)
