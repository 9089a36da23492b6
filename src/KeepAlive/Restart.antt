-- ===== src/KeepAlive/Restart.antt =====
-- What start and stop bring about: how fast a thread ends, and how many run.
use pygt.Base.{
  ℕ, zero, suc, ◌≤◌, ◌≡◌, refl, sym, ap, subst, Bool, true, false, some, List, [], ◌∷◌, ◌++◌, arith,
}
use pygt.KeepAlive.Workers.{
  Phase, loop_test, chunk, sleeping, checking, ended, worker_step, is_alive, KeepAlive,
  new_keepalive, start, stop, last_thread, has_ended, join, step_at, schedule, alive,
}

-- When the stop flag is set, a thread returns in its next two steps at most.
worker_step-ended :
    (chunks : ℕ) (t : Phase) → worker_step chunks true (worker_step chunks true t) ≡ ended
unfolding worker_step
worker_step-ended chunks loop_test = refl
worker_step-ended chunks (chunk zero) = refl
worker_step-ended chunks (chunk (suc k)) = refl
worker_step-ended chunks (sleeping zero) = refl
worker_step-ended chunks (sleeping (suc k)) = refl
worker_step-ended chunks checking = refl
worker_step-ended chunks ended = refl

worker_step-le :
    (chunks : ℕ) (b : Bool) (t : Phase)
    → is_alive t ≡ false
    → is_alive (worker_step chunks b t) ≡ false
unfolding worker_step is_alive
worker_step-le chunks b ended h = refl
worker_step-le chunks b loop_test h = cc
worker_step-le chunks b (chunk k) h = cc
worker_step-le chunks b (sleeping k) h = cc
worker_step-le chunks b checking h = cc

-- The steps of callers that start a thread only when `join` returns True, from nothing started on.
pub data Careful (chunks : ℕ) : KeepAlive → Type 0 where
  fresh : (a : KeepAlive) → a ≡ new_keepalive chunks → Careful chunks a
  start_joined : {a : KeepAlive} → Careful chunks a → join a ≡ true → Careful chunks (start a)
  stop_any : {a : KeepAlive} → Careful chunks a → Careful chunks (stop a)
  step_any : {a : KeepAlive} (i : ℕ) → Careful chunks a → Careful chunks (schedule i a)

-- Every thread but the last has returned.
abbrev OnlyLast : List Phase → Type 0
OnlyLast [] = Unit
OnlyLast (t ∷ []) = Unit
OnlyLast (t ∷ u ∷ ts) = (is_alive t ≡ false) × OnlyLast (u ∷ ts)

step_at-OnlyLast :
    (chunks i : ℕ) (b : Bool) (ts : List Phase) → OnlyLast ts → OnlyLast (step_at chunks i b ts)
unfolding step_at
step_at-OnlyLast chunks i b [] h = tt
step_at-OnlyLast chunks zero b (t ∷ []) h = tt
step_at-OnlyLast chunks zero b (t ∷ u ∷ ts) h = (worker_step-le chunks b t h.0, h.1)
step_at-OnlyLast chunks (suc i) b (t ∷ []) h = tt
step_at-OnlyLast chunks (suc zero) b (t ∷ u ∷ ts) h =
    (h.0, step_at-OnlyLast chunks zero b (u ∷ ts) h.1)
step_at-OnlyLast chunks (suc (suc i)) b (t ∷ u ∷ ts) h =
    (h.0, step_at-OnlyLast chunks (suc i) b (u ∷ ts) h.1)

ended-is_alive : (t : Phase) → has_ended (some t) ≡ true → is_alive t ≡ false
unfolding has_ended is_alive
ended-is_alive ended h = refl
ended-is_alive loop_test h = cc
ended-is_alive (chunk k) h = cc
ended-is_alive (sleeping k) h = cc
ended-is_alive checking h = cc

start-OnlyLast :
    (ts : List Phase)
    → OnlyLast ts
    → has_ended (last_thread ts) ≡ true
    → OnlyLast (ts ++ loop_test ∷ [])
unfolding last_thread
start-OnlyLast [] h e = tt
start-OnlyLast (t ∷ []) h e = (ended-is_alive t e, tt)
start-OnlyLast (t ∷ u ∷ ts) h e = (h.0, start-OnlyLast (u ∷ ts) h.1 e)

Careful-OnlyLast : {chunks : ℕ} {a : KeepAlive} → Careful chunks a → OnlyLast a.threads
unfolding start stop schedule join
Careful-OnlyLast (fresh a e) =
    subst OnlyLast (sym (ap (λ b. b.threads) e)) (unfold new_keepalive in tt)
Careful-OnlyLast (start_joined {a} c joined) = start-OnlyLast a.threads (Careful-OnlyLast c) joined
Careful-OnlyLast (stop_any c) = Careful-OnlyLast c
Careful-OnlyLast (step_any {a} i c) =
    step_at-OnlyLast a.chunks i a.stopped a.threads (Careful-OnlyLast c)

OnlyLast-alive : (ts : List Phase) → OnlyLast ts → alive ts ≤ 1
unfolding alive
OnlyLast-alive [] h = omega arith
OnlyLast-alive (t ∷ []) h = ground arith
OnlyLast-alive (t ∷ u ∷ ts) h = let rest = OnlyLast-alive (u ∷ ts) h.1 in rw h.0 (omega arith)

-- When start is only called once join has returned True, in any interleaving with stops and steps of the threads,
-- at most one thread of the liveness poll is running.
pub Careful-alive : (chunks : ℕ) (a : KeepAlive) → Careful chunks a → alive a.threads ≤ 1
Careful-alive chunks a c = OnlyLast-alive a.threads (Careful-OnlyLast c)

-- Some steps of threads, one after the other.
abbrev pub schedule_all : List ℕ → KeepAlive → KeepAlive
schedule_all [] a = a
schedule_all (i ∷ is) a = schedule_all is (schedule i a)
