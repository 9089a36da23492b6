-- ===== src/Scheduler.antt =====
-- pygt1000/refresh_scheduler.py: the queue of refresh tasks, its wakeup event and its worker. A task is a
-- dict with a "type"; the handlers are the caller's.
pub mod Steps
pub mod Safety
pub mod Progress
pub mod Drain
use pygt.Base.{Text, Bool, true, false, Option, none, some, List, [], ◌∷◌, ◌++◌, list_eq}
use pygt.Base.Dict.{Dict, get, put}
use pygt.Values.{Value}

pub record Task : Type 0 where
  pub type : Text
  pub fx_type : Text
  pub fx_id : Value

-- What the lock guards, and the stop flag.
pub record Scheduler : Type 0 where
  pub queue : List Task
  pub event : Bool
  pub stopped : Bool

abbrev pub new_scheduler : Scheduler
new_scheduler = record { queue = []; event = false; stopped = false }

unfoldable pub register {ℓ} : {H : Type ℓ} → Text → H → Dict Text H → Dict Text H
register task_type handler handlers = put handlers task_type handler

unfoldable pub submit : Task → Scheduler → Scheduler
submit task s = record s { queue = s.queue ++ task ∷ []; event = true }

unfoldable pub pending : Scheduler → List Task
pending s = s.queue

-- One round of `drain` under the lock: the task to dispatch, or the end with the event cleared.
unfoldable pub take_task : Scheduler → Option Task × Scheduler
take_task s = elim s.queue [
  | [] ↦ (none, record s { event = false })
  | task ∷ rest ↦ (some task, record s { queue = rest })
]

-- `drain` with no other thread: the tasks that it dispatches, in order. The queue is passed as the list of rounds.
unfoldable pub drain_rounds : List Task → Scheduler → List Task × Scheduler
unfolding take_task
drain_rounds [] s = ([], (take_task s).1)
drain_rounds (_ ∷ rounds) s =
    let (task, s') = take_task s in
    let (dispatched, end) = drain_rounds rounds s' in
    (elim task [ none ↦ dispatched | some t ↦ t ∷ dispatched ], end)

unfoldable pub drain : Scheduler → List Task × Scheduler
unfolding drain_rounds
drain s = drain_rounds s.queue s

-- The handler of a task; `none` is logged as an unknown task.
unfoldable pub dispatch {ℓ} : {H : Type ℓ} → Dict Text H → Task → Option H
dispatch handlers task = get handlers task.type

unfoldable pub start : Scheduler → Scheduler
start s = record s { stopped = false }

unfoldable pub stop : Scheduler → Scheduler
stop s = record s { stopped = true; event = true }
