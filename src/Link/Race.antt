-- ===== src/Link/Race.antt =====
-- pygt1000/device_link.py: two threads that call `_exchange` at once. Each critical section is one step.
use pygt.Base.{
  ℕ, ◌≡◌, ◌≢◌, refl, sym, subst, Option, none, some, List, [], ◌==◌, list_eq, list_beq_iff,
  if◌then◌else◌, arith,
}
use pygt.Base.Dict.{Dict, get, put, pop, get-put, get-pop}

-- Where a call of `_exchange` is: before its entry in the dict, between two polls, with its answer before the final pop, done
-- with an answer, or ended by the KeyError of `_pending[key]`.
pub data Caller : Type 0 where
  before polling : Caller
  answered done : Option (List ℕ) → Caller
  key_error : Caller

-- The two callers and the dict.
pub record Shared : Type 0 where
  pub first : Caller
  pub second : Caller
  pub pending : Dict (List ℕ) (Option (List ℕ))

-- The steps of a caller with its address, on the dict.
pub data CallerStep (address : List ℕ) (d : Dict (List ℕ) (Option (List ℕ)))
    : Caller → Caller → Dict (List ℕ) (Option (List ℕ)) → Type 0 where
  post : CallerStep address d before polling (put d address none)
  sleep : get d address ≡ some none → CallerStep address d polling polling d
  found :
      (values : List ℕ)
      → get d address ≡ some (some values)
      → CallerStep address d polling (answered (some values)) d
  time_out : CallerStep address d polling (answered none) d
  missing : get d address ≡ none → CallerStep address d polling key_error d
  remove :
      (values : Option (List ℕ))
      → CallerStep address d (answered values) (done values) (pop d address)

module _ (a b : List ℕ) where
  -- A step of one of the callers, or a frame that arrives at an address that is waited for.
  pub data SharedStep (s : Shared) : Shared → Type 0 where
    by_first :
        {c : Caller} {d : Dict (List ℕ) (Option (List ℕ))}
        → CallerStep a s.pending s.first c d
        → SharedStep s (record s { first = c; pending = d })
    by_second :
        {c : Caller} {d : Dict (List ℕ) (Option (List ℕ))}
        → CallerStep b s.pending s.second c d
        → SharedStep s (record s { second = c; pending = d })
    arrives :
        (offset values : List ℕ) {v : Option (List ℕ)}
        → get s.pending offset ≡ some v
        → SharedStep s (record s { pending = put s.pending offset (some values) })

  pub data SharedRun (s : Shared) : Shared → Type 0 where
    start : SharedRun s s
    extend : {t u : Shared} → SharedRun s t → SharedStep t u → SharedRun s u

abbrev pub both_before : Dict (List ℕ) (Option (List ℕ)) → Shared
both_before d = record { first = before; second = before; pending = d }

-- What a caller needs of the dict, and that it has not failed.
Served : List ℕ → Dict (List ℕ) (Option (List ℕ)) → Caller → Type 0
Served address d polling = (v : Option (List ℕ)) × (get d address ≡ some v)
Served address d key_error = ⊥
Served address d before = Unit
Served address d (answered _) = Unit
Served address d (done _) = Unit

Served-own :
    (a : List ℕ) {c c' : Caller} {d d' : Dict (List ℕ) (Option (List ℕ))}
    → CallerStep a d c c' d'
    → Served a d c
    → Served a d' c'
unfolding Served
Served-own a {d = d} post w = (none, ground (arith, get-put d a a none, list_beq_iff a a))
Served-own a (sleep h) w = w
Served-own a (found values h) w = tt
Served-own a time_out w = tt
Served-own a (missing h) (v, e) = absurd cc
Served-own a (remove values) w = tt

-- A change of the dict that keeps what there is at `a`.
Served-keeps :
    (a : List ℕ) (c : Caller) (d d' : Dict (List ℕ) (Option (List ℕ)))
    → ((v : Option (List ℕ)) → get d a ≡ some v → (w : Option (List ℕ)) × (get d' a ≡ some w))
    → Served a d c
    → Served a d' c
unfolding Served
Served-keeps a before d d' k w = tt
Served-keeps a polling d d' k (v, e) = k v e
Served-keeps a (answered _) d d' k w = tt
Served-keeps a (done _) d d' k w = tt
Served-keeps a key_error d d' k w = w

Served-other :
    (a b : List ℕ) (e : Caller) {c c' : Caller} {d d' : Dict (List ℕ) (Option (List ℕ))}
    → a ≢ b
    → CallerStep b d c c' d'
    → Served a d e
    → Served a d' e
Served-other a b e {d = d} ne post w =
    Served-keeps a e d _ (λ v h. (v, ground (arith, get-put d b a none, list_beq_iff b a))) w
Served-other a b e ne (sleep h) w = w
Served-other a b e ne (found values h) w = w
Served-other a b e ne time_out w = w
Served-other a b e ne (missing h) w = w
Served-other a b e {d = d} ne (remove values) w =
    Served-keeps a e d _ (λ v h. (v, ground (arith, get-pop d b a, list_beq_iff b a))) w

Served-arrives :
    (a o values : List ℕ) (c : Caller) (d : Dict (List ℕ) (Option (List ℕ)))
    → Served a d c
    → Served a (put d o (some values)) c
Served-arrives a o values c d =
    Served-keeps a c d _
      (λ v h. ((if o == a then some values else v), ground (arith, get-put d o a (some values))))

SharedRun-Served :
    (a b : List ℕ) (d : Dict (List ℕ) (Option (List ℕ))) {t : Shared}
    → a ≢ b
    → SharedRun a b (both_before d) t
    → Served a t.pending t.first × Served b t.pending t.second
unfolding Served
SharedRun-Served a b d ne start = (tt, tt)
SharedRun-Served a b d ne (extend {t} r (by_first st)) =
    let (w, w') = SharedRun-Served a b d ne r in
    (Served-own a st w, Served-other b a t.second (λ e. ne (sym e)) st w')
SharedRun-Served a b d ne (extend {t} r (by_second st)) =
    let (w, w') = SharedRun-Served a b d ne r in
    (Served-other a b t.first ne st w, Served-own b st w')
SharedRun-Served a b d ne (extend {t} r (arrives o values h)) =
    let (w, w') = SharedRun-Served a b d ne r in
    (Served-arrives a o values t.first t.pending w, Served-arrives b o values t.second t.pending w')

Served-safe :
    (a : List ℕ) (d : Dict (List ℕ) (Option (List ℕ))) (c : Caller) → Served a d c → c ≢ key_error
unfolding Served
Served-safe a d c w e = subst (Served a d) e w

-- Two calls for different addresses never meet a KeyError, whatever the order of their steps and of the arrivals.
pub SharedRun-safe :
    (a b : List ℕ) (d : Dict (List ℕ) (Option (List ℕ))) {t : Shared}
    → a ≢ b
    → SharedRun a b (both_before d) t
    → (t.first ≢ key_error) × (t.second ≢ key_error)
SharedRun-safe a b d {t} ne r =
    let (w, w') = SharedRun-Served a b d ne r in
    (Served-safe a t.pending t.first w, Served-safe b t.pending t.second w')

get-put_here : {V : Type 0} (d : Dict (List ℕ) V) (a : List ℕ) (v : V) → get (put d a v) a ≡ some v
get-put_here d a v = ground (arith, get-put d a a v, list_beq_iff a a)

get-pop_here : {V : Type 0} (d : Dict (List ℕ) V) (a : List ℕ) → get (pop d a) a ≡ none
get-pop_here d a = ground (arith, get-pop d a a, list_beq_iff a a)

-- For every address and data there is a run of two calls for that address in which the second ends in the KeyError: the
-- first removes the entry that the second still polls.
pub SharedRun-clash :
    (address values : List ℕ)
    → (t : Shared) × SharedRun address address (both_before []) t × (t.second ≡ key_error)
SharedRun-clash a values =
    let posted = put (put [] a none) a none in
    let arrived = put posted a (some values) in
    let posts = extend (extend start (by_first post)) (by_second post) in
    let answered_run =
      extend (extend posts (arrives a values (get-put_here (put [] a none) a none)))
        (by_first (found values (get-put_here posted a (some values)))) in
    let removed = extend answered_run (by_first (remove (some values))) in
    (_, extend removed (by_second (missing (get-pop_here arrived a))), refl)
