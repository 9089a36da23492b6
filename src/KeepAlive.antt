-- ===== src/KeepAlive.antt =====
-- pygt1000/keepalive.py: the periodic liveness poll. Time is counted in sleeps of `poll_sec`; the stop flag is a
-- function of that time, which other threads decide.
pub mod Polls
pub mod Workers
pub mod Restart
use pygt.Base.{
  ℕ, zero, suc, ◌+◌, Bool, true, false, Option, none, some, List, [], ◌∷◌, ◌==◌, list_eq,
  if◌then◌else◌,
}

-- What the poll returned against what a live device returns; None is unequal.
unfoldable pub reads_alive : List ℕ → Option (List ℕ) → Bool
reads_alive alive none = false
reads_alive alive (some bytes) = bytes == alive

-- One cycle: whether the device is alive, and the state after `on_unresponsive` if it is not.
unfoldable pub check {ℓ} :
    {S : Type ℓ} → List ℕ → (S → Option (List ℕ) × S) → (S → S) → S → Bool × S
check alive poll on_unresponsive s =
    let (bytes, s') = poll s in
    if reads_alive alive bytes then (true, s') else (false, on_unresponsive s')

-- Sleep `chunks` times, reading the flag before each and at the end: whether a stop was seen, and the time.
unfoldable pub sleep_interval : ℕ → (ℕ → Bool) → ℕ → Bool × ℕ
sleep_interval zero stopped now = (stopped now, now)
sleep_interval (suc chunks) stopped now =
    let slept = sleep_interval chunks stopped (now + 1) in
    if stopped now then (true, now) else slept

-- The worker's loop on fuel: the time and the outcome of every `check`, and the state at the end.
unfoldable pub run {ℓ} :
    {S : Type ℓ}
    → ℕ
    → ℕ
    → (ℕ → Bool)
    → ℕ
    → List ℕ
    → (S → Option (List ℕ) × S)
    → (S → S)
    → S
    → List (ℕ × Bool) × S
unfolding sleep_interval check
run zero chunks stopped now alive poll on_unresponsive s = ([], s)
run (suc fuel) chunks stopped now alive poll on_unresponsive s =
    let (seen, later) = sleep_interval chunks stopped now in
    let (outcome, s') = check alive poll on_unresponsive s in
    let (checks, end) = run fuel chunks stopped later alive poll on_unresponsive s' in
    if stopped now then ([], s) else if seen then ([], s) else ((later, outcome) ∷ checks, end)
