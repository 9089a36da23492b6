-- ===== src/Base/Dict.antt =====
-- Python's dict as its items in insertion order: a write to a key that is there keeps its place.
use mathlib.Core.Path.{◌≡◌, refl}
use mathlib.Core.Bool.{Bool, true, false, ◌||◌}
use mathlib.Core.Option.{Option, none, some}
use mathlib.Core.List.{List, [], ◌∷◌, ◌++◌}
use native.Mathlib.Omega.{arith}
use pygt.Base.Tests.{Eq, ◌==◌, if◌then◌else◌}

abbrev pub Dict {ℓ κ} : Type ℓ → Type κ → Type (ℓ ⊔ κ)
Dict K V = List (K × V)

module _ {ℓ κ} {K : Type ℓ} {V : Type κ} ⦃e : Eq K⦄ where
  -- `d.get(k)`
  unfoldable pub get : Dict K V → K → Option V
  get [] k = none
  get ((j, v) ∷ d) k = if j == k then some v else get d k

  -- `k in d`
  unfoldable pub has : Dict K V → K → Bool
  has [] k = false
  has ((j, v) ∷ d) k = if j == k then true else has d k

  -- `d[k] = v`
  unfoldable pub put : Dict K V → K → V → Dict K V
  put [] k v = (k, v) ∷ []
  put ((j, w) ∷ d) k v = if j == k then (j, v) ∷ d else (j, w) ∷ put d k v

  -- `d.pop(k, None)`
  unfoldable pub pop : Dict K V → K → Dict K V
  pop [] k = []
  pop ((j, w) ∷ d) k = let rest = pop d k in if j == k then rest else (j, w) ∷ rest

  pub get-put :
      (d : Dict K V) (k j : K) (v : V) → get (put d k v) j ≡ (if k == j then some v else get d j)
  unfolding get put
  get-put [] k j v = refl
  get-put ((i, w) ∷ d) k j v =
      ground (arith, e.beq_iff k j, e.beq_iff i k, e.beq_iff i j, get-put d k j v)

  pub get-pop : (d : Dict K V) (k j : K) → get (pop d k) j ≡ (if k == j then none else get d j)
  unfolding get pop
  get-pop [] k j = ground arith
  get-pop ((i, w) ∷ d) k j =
      ground (arith, e.beq_iff k j, e.beq_iff i k, e.beq_iff i j, get-pop d k j)

  pub has-get : (d : Dict K V) (k : K) → has d k ≡ elim (get d k) [ none ↦ false | some _ ↦ true ]
  unfolding get has
  has-get [] k = refl
  has-get ((j, v) ∷ d) k = ground (arith, has-get d k)

module _ {ℓ κ} {K : Type ℓ} {V : Type κ} ⦃e : Eq K⦄ where
  pub has-append : (d d' : Dict K V) (k : K) → has (d ++ d') k ≡ (has d k || has d' k)
  unfolding has
  has-append [] d' k = refl
  has-append ((j, v) ∷ d) d' k = ground (arith, has-append d d' k)

  -- A key that is not there is added at the end.
  pub put_new : (d : Dict K V) (k : K) (v : V) → has d k ≡ false → put d k v ≡ d ++ (k, v) ∷ []
  unfolding has put
  put_new [] k v h = refl
  put_new ((j, w) ∷ d) k v h = ground (arith, put_new d k v)

  pub get_last :
      (d : Dict K V) (k : K) (v : V) → has d k ≡ false → get (d ++ (k, v) ∷ []) k ≡ some v
  unfolding has get
  get_last [] k v h = rw ((e.beq_iff k k).1 refl)
  get_last ((j, w) ∷ d) k v h = ground (arith, get_last d k v)

  pub put_last :
      (d : Dict K V) (k : K) (v w : V)
      → has d k ≡ false
      → put (d ++ (k, v) ∷ []) k w ≡ d ++ (k, w) ∷ []
  unfolding has put
  put_last [] k v w h = rw ((e.beq_iff k k).1 refl)
  put_last ((j, u) ∷ d) k v w h = ground (arith, put_last d k v w)

module _ {ℓ κ μ} {K : Type ℓ} {V : Type κ} {W : Type μ} ⦃e : Eq K⦄ where
  -- A view of the values, key by key.
  unfoldable pub map_values : (V → W) → Dict K V → Dict K W
  map_values f [] = []
  map_values f ((k, v) ∷ d) = (k, f v) ∷ map_values f d

  -- A write that the view does not see.
  pub map_values-put_same :
      (f : V → W) (d : Dict K V) (k : K) (v v' : V)
      → get d k ≡ some v
      → f v' ≡ f v
      → map_values f (put d k v') ≡ map_values f d
  unfolding map_values get put
  map_values-put_same f [] k v v' h same = cc
  map_values-put_same f ((j, w) ∷ d) k v v' h same = ground (arith, map_values-put_same f d k v v')

pub ruleset dict_laws = (get-put, get-pop, has-get)
