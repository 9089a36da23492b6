-- ===== src/Scheduler/Steps.antt =====
-- The threads of the scheduler as interleaved steps: workers, callers of drain, and callers of submit, start and stop.
-- Each step is one critical section, one read or write of a flag, one wait, or one call of a handler.
use pygt.Base.{◌≡◌, true, false, none, some, List, [], ◌∷◌, ◌++◌}
use pygt.Scheduler.{Task, Scheduler, new_scheduler, submit, take_task}

-- Who drains: a worker, which goes back to its loop, or another thread, which returns.
pub data Caller : Type 0 where
  in_loop directly : Caller

-- Where a thread is: in `start` before the new thread runs, at the test of the worker's loop, in `event.wait`, in
-- `drain`, calling a handler, in `stop` between its two writes, or gone: returned, or ended by an exception of a handler.
pub data Worker : Type 0 where
  starting testing waiting : Worker
  draining : Caller → Worker
  handling : Caller → Task → Worker
  stopping returned crashed : Worker

-- Where `drain` returns to.
abbrev pub after_drain : Caller → Worker
after_drain in_loop = testing
after_drain directly = returned

-- The scheduler, the thread that is looked at and the others, with the history of what was submitted and what was
-- handed to a handler.
pub record System : Type 0 where
  pub scheduler : Scheduler
  pub worker : Worker
  pub others : List Worker
  pub submitted : List Task
  pub dispatched : List Task

abbrev pub started : System
started = record {
  scheduler = new_scheduler;
  worker = testing;
  others = [];
  submitted = [];
  dispatched = [];
}

-- The steps of the thread that is looked at.
pub data WorkerStep (s : System) : System → Type 0 where
  spawn : {t : System} → s.worker ≡ starting → t ≡ record s { worker = testing } → WorkerStep s t
  go_on :
      {t : System}
      → s.worker ≡ testing
      → s.scheduler.stopped ≡ false
      → t ≡ record s { worker = waiting }
      → WorkerStep s t
  leave :
      {t : System}
      → s.worker ≡ testing
      → s.scheduler.stopped ≡ true
      → t ≡ record s { worker = returned }
      → WorkerStep s t
  wake :
      {t : System}
      → s.worker ≡ waiting
      → s.scheduler.event ≡ true
      → t ≡ record s { worker = draining in_loop }
      → WorkerStep s t
  time_out :
      {t : System}
      → s.worker ≡ waiting
      → s.scheduler.event ≡ false
      → t ≡ record s { worker = testing }
      → WorkerStep s t
  take :
      {t : System} (caller : Caller) (task : Task) (rest : Scheduler)
      → s.worker ≡ draining caller
      → take_task s.scheduler ≡ (some task, rest)
      → t ≡ record s {
        scheduler = rest;
        worker = handling caller task;
        dispatched = s.dispatched ++ task ∷ [];
      }
      → WorkerStep s t
  finish :
      {t : System} (caller : Caller) (rest : Scheduler)
      → s.worker ≡ draining caller
      → take_task s.scheduler ≡ (none, rest)
      → t ≡ record s { scheduler = rest; worker = after_drain caller }
      → WorkerStep s t
  handled :
      {t : System} (caller : Caller) (task : Task)
      → s.worker ≡ handling caller task
      → t ≡ record s { worker = draining caller }
      → WorkerStep s t
  signal :
      {t : System}
      → s.worker ≡ stopping
      → t ≡ record s { scheduler = record (s.scheduler) { event = true }; worker = returned }
      → WorkerStep s t

-- A handler raises: the exception leaves `drain` and ends the thread.
pub data Raises (s : System) : System → Type 0 where
  raised :
      {t : System} (caller : Caller) (task : Task)
      → s.worker ≡ handling caller task
      → t ≡ record s { worker = crashed }
      → Raises s t

-- Any step: that of a thread, an exception of a handler, the turn of another thread, and calls of submit, of start and
-- stop up to their first write, and of drain.
pub data Step (s : System) : System → Type 0 where
  work : {t : System} → WorkerStep s t → Step s t
  raises : {t : System} → Raises s t → Step s t
  turns :
      {t : System} (before after : List Worker) (w : Worker)
      → s.others ≡ before ++ w ∷ after
      → t ≡ record s { worker = w; others = before ++ s.worker ∷ after }
      → Step s t
  submits :
      {t : System} (task : Task)
      → t ≡ record s { scheduler = submit task s.scheduler; submitted = s.submitted ++ task ∷ [] }
      → Step s t
  starts :
      {t : System}
      → t ≡ record s {
        scheduler = record (s.scheduler) { stopped = false };
        worker = starting;
        others = s.worker ∷ s.others;
      }
      → Step s t
  stops :
      {t : System}
      → t ≡ record s {
        scheduler = record (s.scheduler) { stopped = true };
        worker = stopping;
        others = s.worker ∷ s.others;
      }
      → Step s t
  drains :
      {t : System}
      → t ≡ record s { worker = draining directly; others = s.worker ∷ s.others }
      → Step s t

pub data Run (s : System) : System → Type 0 where
  here : Run s s
  next : {t u : System} → Run s t → Step t u → Run s u

-- Steps of one thread alone.
pub data Works : System → System → Type 0 where
  rest : {s : System} → Works s s
  more : {s t u : System} → WorkerStep s t → Works t u → Works s u
