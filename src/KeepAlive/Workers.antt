-- ===== src/KeepAlive/Workers.antt =====
-- pygt1000/keepalive.py: start, stop and join, and the threads that run the loop, step by step. A step of a thread reads or
-- writes the shared flag at most once.
use pygt.Base.{
  ℕ, zero, suc, ◌+◌, Bool, true, false, Option, none, some, List, [], ◌∷◌, ◌++◌, if◌then◌else◌,
}

-- Where a thread of `_run` stands: at the test of the loop, before the next of some chunks or at the end of the interval, in
-- the sleep of a chunk, in `check`, or returned.
pub data Phase : Type 0 where
  loop_test : Phase
  chunk : ℕ → Phase
  sleeping : ℕ → Phase
  checking : Phase
  ended : Phase

-- The next step of a thread, which sleeps `chunks` times in an interval.
unfoldable pub worker_step : ℕ → Bool → Phase → Phase
worker_step chunks stopped loop_test = if stopped then ended else chunk chunks
worker_step chunks stopped (chunk zero) = if stopped then ended else checking
worker_step chunks stopped (chunk (suc k)) = if stopped then ended else sleeping k
worker_step chunks stopped (sleeping k) = chunk k
worker_step chunks stopped checking = loop_test
worker_step chunks stopped ended = ended

unfoldable pub is_alive : Phase → Bool
is_alive ended = false
is_alive _ = true

-- The fields: `threads` has every thread that was started, oldest first; `_thread` is the last.
pub record KeepAlive : Type 0 where
  pub chunks : ℕ
  pub stopped : Bool
  pub threads : List Phase

unfoldable pub new_keepalive : ℕ → KeepAlive
new_keepalive chunks = record { chunks = chunks; stopped = false; threads = [] }

unfoldable pub start : KeepAlive → KeepAlive
start a = record a { stopped = false; threads = a.threads ++ loop_test ∷ [] }

unfoldable pub stop : KeepAlive → KeepAlive
stop a = record a { stopped = true }

unfoldable pub last_thread : List Phase → Option Phase
last_thread [] = none
last_thread (t ∷ []) = some t
last_thread (t ∷ u ∷ ts) = last_thread (u ∷ ts)

-- What `join` returns when it stops waiting: whether the thread that it waited for has returned.
unfoldable pub has_ended : Option Phase → Bool
has_ended none = true
has_ended (some ended) = true
has_ended (some _) = false

unfoldable pub join : KeepAlive → Bool
unfolding last_thread has_ended
join a = has_ended (last_thread a.threads)

-- The thread at a place takes its next step.
unfoldable pub step_at : ℕ → ℕ → Bool → List Phase → List Phase
unfolding worker_step
step_at chunks i stopped [] = []
step_at chunks zero stopped (t ∷ ts) = worker_step chunks stopped t ∷ ts
step_at chunks (suc i) stopped (t ∷ ts) = t ∷ step_at chunks i stopped ts

unfoldable pub schedule : ℕ → KeepAlive → KeepAlive
unfolding step_at
schedule i a = record a { threads = step_at a.chunks i a.stopped a.threads }

-- How many threads have not returned.
unfoldable pub alive : List Phase → ℕ
unfolding is_alive
alive [] = 0
alive (t ∷ ts) = (if is_alive t then 1 else 0) + alive ts

-- What other threads and the scheduler may do.
pub data Step : KeepAlive → KeepAlive → Type 0 where
  started : (a : KeepAlive) → Step a (start a)
  stopping : (a : KeepAlive) → Step a (stop a)
  scheduled : (a : KeepAlive) (i : ℕ) → Step a (schedule i a)
