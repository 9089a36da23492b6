-- ===== src/Scheduler/Safety.antt =====
-- pygt1000/refresh_scheduler.py: the wakeup event and the order of the tasks, over all runs.
use pygt.Base.{
  ◌≡◌, refl, sym, ap, subst, ◌∙◌, Bool, true, false, none, some, List, [], ◌∷◌, ◌++◌, append_assoc,
  arith,
}
use pygt.Scheduler.{Task, Scheduler, submit, take_task}
use pygt.Scheduler.Steps.{
  System, Worker, Caller, handling, started, after_drain, WorkerStep, spawn, go_on, leave, wake,
  time_out, take, finish, handled, signal, raised, Step, work, raises, turns, submits, starts,
  stops, drains, Run, here, next,
}

-- A scheduler with a task has its event set.
abbrev pub Wakes : List Task → Bool → Type 0
Wakes [] event = Unit {0}
Wakes (t ∷ ts) event = event ≡ true

-- The event is set while a task is queued, and what was dispatched, followed by what is queued, is what was submitted.
pub record IsSound (s : System) : Type 0 where
  pub wakes : Wakes s.scheduler.queue s.scheduler.event
  pub in_order : s.dispatched ++ s.scheduler.queue ≡ s.submitted

Wakes-true : (q : List Task) → Wakes q true
Wakes-true [] = tt
Wakes-true (t ∷ q) = refl

take_task-some :
    (s rest : Scheduler) (task : Task)
    → take_task s ≡ (some task, rest)
    → (s.queue ≡ task ∷ rest.queue) × (rest.event ≡ s.event) × (rest.stopped ≡ s.stopped)
unfolding take_task
take_task-some s rest task h = ground arith

take_task-none :
    (s rest : Scheduler)
    → take_task s ≡ (none, rest)
    → (s.queue ≡ []) × (rest ≡ record s { event = false })
unfolding take_task
take_task-none s rest h = ground arith

Wakes-tail : (t : Task) (q : List Task) (event : Bool) → Wakes (t ∷ q) event → Wakes q event
Wakes-tail t [] event h = tt
Wakes-tail t (u ∷ q) event h = h

take-IsSound :
    (s : System) (caller : Caller) (task : Task) (rest : Scheduler)
    → take_task s.scheduler ≡ (some task, rest)
    → IsSound s
    → IsSound (record s {
      scheduler = rest;
      worker = handling caller task;
      dispatched = s.dispatched ++ task ∷ [];
    })
take-IsSound s caller task rest h i =
    let (shape, same, _) = take_task-some s.scheduler rest task h in
    record {
      wakes = subst (Wakes rest.queue) (sym same) (
          Wakes-tail task rest.queue s.scheduler.event
            (subst (λ q. Wakes q s.scheduler.event) shape i.wakes));
      in_order =
          append_assoc s.dispatched (task ∷ []) rest.queue
          ∙ ap (λ q. s.dispatched ++ q) (sym shape)
          ∙ i.in_order;
    }

finish-IsSound :
    (s : System) (w : Worker) (rest : Scheduler)
    → take_task s.scheduler ≡ (none, rest)
    → IsSound s
    → IsSound (record s { scheduler = rest; worker = w })
finish-IsSound s w rest h i =
    let (empty, same) = take_task-none s.scheduler rest h in
    let queue_empty : rest.queue ≡ [] = ap (λ (r : Scheduler). r.queue) same ∙ empty in
    record {
      wakes = subst (λ q. Wakes q rest.event) (sym queue_empty) tt;
      in_order = ap (λ q. s.dispatched ++ q) (queue_empty ∙ sym empty) ∙ i.in_order;
    }

WorkerStep-IsSound : {s t : System} → WorkerStep s t → IsSound s → IsSound t
WorkerStep-IsSound (spawn w e) i =
    subst IsSound (sym e) (record { wakes = i.wakes; in_order = i.in_order })
WorkerStep-IsSound (go_on w st e) i =
    subst IsSound (sym e) (record { wakes = i.wakes; in_order = i.in_order })
WorkerStep-IsSound (leave w st e) i =
    subst IsSound (sym e) (record { wakes = i.wakes; in_order = i.in_order })
WorkerStep-IsSound (wake w ev e) i =
    subst IsSound (sym e) (record { wakes = i.wakes; in_order = i.in_order })
WorkerStep-IsSound (time_out w ev e) i =
    subst IsSound (sym e) (record { wakes = i.wakes; in_order = i.in_order })
WorkerStep-IsSound {s} (take caller task rest w h e) i =
    subst IsSound (sym e) (take-IsSound s caller task rest h i)
WorkerStep-IsSound {s} (finish caller rest w h e) i =
    subst IsSound (sym e) (finish-IsSound s (after_drain caller) rest h i)
WorkerStep-IsSound (handled caller task w e) i =
    subst IsSound (sym e) (record { wakes = i.wakes; in_order = i.in_order })
WorkerStep-IsSound {s} (signal w e) i =
    subst IsSound (sym e) (record { wakes = Wakes-true s.scheduler.queue; in_order = i.in_order })

Step-IsSound : {s t : System} → Step s t → IsSound s → IsSound t
unfolding submit
Step-IsSound (work w) i = WorkerStep-IsSound w i
Step-IsSound (raises (raised caller task w e)) i =
    subst IsSound (sym e) (record { wakes = i.wakes; in_order = i.in_order })
Step-IsSound (turns before after w h e) i =
    subst IsSound (sym e) (record { wakes = i.wakes; in_order = i.in_order })
Step-IsSound (starts e) i =
    subst IsSound (sym e) (record { wakes = i.wakes; in_order = i.in_order })
Step-IsSound (stops e) i = subst IsSound (sym e) (record { wakes = i.wakes; in_order = i.in_order })
Step-IsSound (drains e) i =
    subst IsSound (sym e) (record { wakes = i.wakes; in_order = i.in_order })
Step-IsSound {s} (submits task e) i = subst IsSound (sym e) (record {
  wakes = Wakes-true (s.scheduler.queue ++ task ∷ []);
  in_order =
      sym (append_assoc s.dispatched s.scheduler.queue (task ∷ []))
      ∙ ap (λ q. q ++ task ∷ []) i.in_order;
})

pub Run-IsSound : {s : System} → Run started s → IsSound s
Run-IsSound here = record { wakes = tt; in_order = refl }
Run-IsSound (next r st) = Step-IsSound st (Run-IsSound r)
