-- ===== src/KeepAlive/Polls.antt =====
-- pygt1000/keepalive.py, `_run`: when the worker checks, with a stop at a given time.
use pygt.Base.{
  ℕ, zero, suc, ◌+◌, ◌*◌, ◌≤◌, ◌<◌, ◌≡◌, Bool, true, false, leb, Option, List, [], ◌∷◌, arith,
  if◌then◌else◌,
}
use pygt.KeepAlive.{sleep_interval, check, run}

-- The flag that a stop at time `at` sets for good.
abbrev stopped_from : ℕ → ℕ → Bool
stopped_from at now = leb at now

-- The states that `count` checks in a row leave, and what they find.
abbrev outcomes {ℓ} : {S : Type ℓ} → ℕ → ℕ → ℕ → (S → Bool × S) → S → List (ℕ × Bool) × S
outcomes zero chunks now cycle s = ([], s)
outcomes (suc count) chunks now cycle s =
    let (outcome, s') = cycle s in
    let (rest, end) = outcomes count chunks (now + chunks) cycle s' in
    ((now + chunks, outcome) ∷ rest, end)

sleep_interval-stopped_from :
    (chunks at now : ℕ)
    → now ≤ at
    → sleep_interval chunks (stopped_from at) now
      ≡ (if leb at (now + chunks) then (true, at) else (false, now + chunks))
unfolding sleep_interval
sleep_interval-stopped_from zero at now h = ground arith
sleep_interval-stopped_from (suc chunks) at now h =
    ground (arith, sleep_interval-stopped_from chunks at (now + 1))

-- A worker that is started at time `now` and stopped at time `at`, after `count` whole intervals but not after one more,
-- checks at the end of each of these intervals, threading the state, and then ends: fuel above `count` is enough.
run-outcomes {ℓ} :
    {S : Type ℓ} (count fuel chunks at now : ℕ) (alive : List ℕ) (poll : S → Option (List ℕ) × S)
    (on_unresponsive : S → S) (s : S)
    → count < fuel
    → now + count * chunks < at
    → at ≤ now + suc count * chunks
    → run fuel chunks (stopped_from at) now alive poll on_unresponsive s
      ≡ outcomes count chunks now (check alive poll on_unresponsive) s
unfolding run
run-outcomes count zero chunks at now alive poll f s h lo hi = absurd (omega arith)
run-outcomes zero (suc fuel) chunks at now alive poll f s h lo hi =
    ground (arith, sleep_interval-stopped_from chunks at now)
run-outcomes (suc count) (suc fuel) chunks at now alive poll f s h lo hi = ground (
  arith,
  sleep_interval-stopped_from chunks at now,
  run-outcomes count fuel chunks at (now + chunks) alive poll f (check alive poll f s).1,
)
