-- ===== src/Scheduler/Progress.antt =====
-- pygt1000/refresh_scheduler.py: what the worker reaches by itself.
use pygt.Base.{
  ◌≡◌, ◌⊎◌, inl, inr, refl, sym, ap, ◌∙◌, Bool, true, false, none, some, List, [], ◌∷◌, ◌++◌,
  append_assoc, append-nil,
}
use pygt.Scheduler.{Task, Scheduler, take_task}
use pygt.Scheduler.Steps.{
  System, Worker, Caller, in_loop, starting, testing, waiting, draining, handling, stopping,
  returned, crashed, after_drain, WorkerStep, spawn, go_on, wake, take, finish, handled, Works,
  rest, more,
}
use pygt.Scheduler.Safety.{IsSound, Wakes}

-- Nothing is queued, and `q` was dispatched since `s`.
record Drained (s : System) (q : List Task) : Type 0 where
  final : System
  steps : Works s final
  empty : final.scheduler.queue ≡ []
  log : final.dispatched ≡ s.dispatched ++ q
  same : final.submitted ≡ s.submitted

before :
    {s t : System} (q : List Task)
    → WorkerStep s t
    → s.dispatched ≡ t.dispatched
    → t.submitted ≡ s.submitted
    → Drained t q
    → Drained s q
before q st same kept d = record {
  final = d.final;
  steps = more st d.steps;
  empty = d.empty;
  log = d.log ∙ ap (λ l. l ++ q) (sym same);
  same = d.same ∙ kept;
}

take_task-cons :
    (s : Scheduler) (task : Task) (q : List Task)
    → s.queue ≡ task ∷ q
    → take_task s ≡ (some task, record s { queue = q })
unfolding take_task
take_task-cons s task q h = rw h

take_task-nil : (s : Scheduler) → s.queue ≡ [] → take_task s ≡ (none, record s { event = false })
unfolding take_task
take_task-nil s h = rw h

drains :
    (caller : Caller) (q : List Task) (s : System)
    → s.worker ≡ draining caller
    → s.scheduler.queue ≡ q
    → Drained s q
drains caller [] s w h = record {
  final = record s {
    scheduler = record (s.scheduler) { event = false };
    worker = after_drain caller;
  };
  steps = more (finish caller _ w (take_task-nil s.scheduler h) refl) rest;
  empty = h;
  log = sym (append-nil s.dispatched);
  same = refl;
}
drains caller (task ∷ q) s w h =
    let left : Scheduler = record (s.scheduler) { queue = q } in
    let taken : System = record s {
      scheduler = left;
      worker = handling caller task;
      dispatched = s.dispatched ++ task ∷ [];
    } in
    let back : System = record taken { worker = draining caller } in
    let d = drains caller q back refl refl in
    record {
      final = d.final;
      steps =
          more (take caller task left w (take_task-cons s.scheduler task q h) refl)
            (more (handled caller task refl refl) d.steps);
      empty = d.empty;
      log = d.log ∙ append_assoc s.dispatched (task ∷ []) q;
      same = d.same;
    }

-- A worker, or a caller of drain, that has not returned and that no handler has ended.
abbrev pub IsAlive : Worker → Type 0
IsAlive starting = Unit {0}
IsAlive testing = Unit {0}
IsAlive waiting = Unit {0}
IsAlive (draining c) = Unit {0}
IsAlive (handling c t) = Unit {0}
IsAlive stopping = ⊥
IsAlive returned = ⊥
IsAlive crashed = ⊥

from_waiting :
    (s : System) → s.worker ≡ waiting → s.scheduler.event ≡ true → Drained s s.scheduler.queue
from_waiting s w ev =
    before s.scheduler.queue (wake w ev refl) refl refl
      (drains in_loop s.scheduler.queue (record s { worker = draining in_loop }) refl refl)

from_testing :
    (s : System)
    → s.worker ≡ testing
    → s.scheduler.stopped ≡ false
    → s.scheduler.event ≡ true
    → Drained s s.scheduler.queue
from_testing s w st ev =
    before s.scheduler.queue (go_on w st refl) refl refl
      (from_waiting (record s { worker = waiting }) refl ev)

-- What the worker reaches by itself.
pub record Delivered (s : System) : Type 0 where
  pub final : System
  pub steps : Works s final
  pub empty : final.scheduler.queue ≡ []
  pub all : final.dispatched ≡ s.submitted

delivered : (s : System) → IsSound s → Drained s s.scheduler.queue → Delivered s
delivered s i d = record {
  final = d.final;
  steps = d.steps;
  empty = d.empty;
  all = d.log ∙ i.in_order;
}

already : (s : System) → IsSound s → s.scheduler.queue ≡ [] → Delivered s
already s i e = record {
  final = s;
  steps = rest;
  empty = e;
  all = sym (append-nil s.dispatched) ∙ ap (λ q. s.dispatched ++ q) (sym e) ∙ i.in_order;
}

queue-cases : (q : List Task) (event : Bool) → Wakes q event → (q ≡ []) ⊎ (event ≡ true)
queue-cases [] event h = inl refl
queue-cases (t ∷ q) event h = inr h

deliver :
    (w : Worker) (s : System)
    → s.worker ≡ w
    → IsAlive w
    → s.scheduler.stopped ≡ false
    → IsSound s
    → Delivered s
deliver testing s e a st i = elim (queue-cases s.scheduler.queue s.scheduler.event i.wakes) [
  | inl empty ↦ already s i empty
  | inr ev ↦ delivered s i (from_testing s e st ev)
]
deliver starting s e a st i = elim (queue-cases s.scheduler.queue s.scheduler.event i.wakes) [
  | inl empty ↦ already s i empty
  | inr ev ↦ delivered s i (
      before s.scheduler.queue (spawn e refl) refl refl
        (from_testing (record s { worker = testing }) refl st ev))
]
deliver waiting s e a st i = elim (queue-cases s.scheduler.queue s.scheduler.event i.wakes) [
  | inl empty ↦ already s i empty
  | inr ev ↦ delivered s i (from_waiting s e ev)
]
deliver (draining c) s e a st i = delivered s i (drains c s.scheduler.queue s e refl)
deliver (handling c t) s e a st i = delivered s i (
    before s.scheduler.queue (handled c t e refl) refl refl
      (drains c s.scheduler.queue (record s { worker = draining c }) refl refl))
deliver stopping s e a st i = absurd a
deliver returned s e a st i = absurd a
deliver crashed s e a st i = absurd a
