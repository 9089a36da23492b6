-- ===== src/PatchState/Names.antt =====
-- pygt1000/patch_state.py, `apply`: the resolved effect names and the names of the fx blocks.
use pygt.Base.{
  refl, ℕ, ◌≡◌, ◌⊎◌, ap, sym, ◌∙◌, subst, Text, text, true, ◌&&◌, Option, none, some, List, ok,
  arith, inl, inr, Option-cases, Bool-cases, list_eq, list_beq_iff, ◌==◌, if◌then◌else◌,
}
use pygt.Base.Dict.{Dict, get, get-put}
use pygt.Values.{Value, str_of_option}
use pygt.AddressMap.{DecodedValue}
use pygt.PatchState.{
  PatchState, FxBlock, ApplyResult, fold_block, find_first, names_after, apply_found, apply_entries,
  entries_of, apply, is_ready, label_value,
}
use pygt.PatchState.Layout.{entries_of-get}
use pygt.PatchState.Apply.{block, blocks-found}

fold_block-name :
    (d : DecodedValue) (fx : FxBlock)
    → (fold_block d fx).0.name ≡ (
        if d.value_name == text "SW"
        then fx.name
        else if d.value_name == text "TYPE"
        then label_value d.str_value
        else fx.name)
unfolding fold_block
fold_block-name d fx = ground arith

-- The name that is recorded for `id` is that of the block, if there is one.
abbrev pub Named : Dict Text (Option Value) → Text → Option FxBlock → Type 0
Named names id none = Unit
Named names id (some fx) = get names id ≡ some fx.name

-- For every known fx block the resolved name is recorded, and is the block's own.
pub record NamesAgree (s : PatchState) : Type 0 where
  pub agree : (id : Text) → Named s.fx_names id (block (text "fx") id s)

agree_at :
    {s : PatchState}
    → NamesAgree s
    → (id : Text) (fx : FxBlock) → block (text "fx") id s ≡ some fx
    → get s.fx_names id ≡ some fx.name
agree_at {s} a id fx h = subst (λ o. Named s.fx_names id o) h (a.agree id)

Named-intro :
    (names : Dict Text (Option Value)) (id : Text) (o : Option FxBlock)
    → ((fx : FxBlock) → o ≡ some fx → get names id ≡ some fx.name)
    → Named names id o
Named-intro names id none h = tt
Named-intro names id (some fx) h = h fx refl

apply_found-NamesAgree :
    (d : DecodedValue) (now : ℕ) (s : PatchState) (t : Text) (es : List FxBlock) (fx : FxBlock)
    → get s.scans t ≡ some es
    → find_first (str_of_option d.fx_id) es ≡ some fx
    → NamesAgree s
    → (id : Text) (fx' : FxBlock)
    → (if t == text "fx" && str_of_option d.fx_id == id
        then some (fold_block d fx).0
        else block (text "fx") id s)
      ≡ some fx'
    → get (names_after d t s) id ≡ some fx'.name
unfolding names_after
apply_found-NamesAgree d now s t es fx scanned found a id fx' h = ground (
  arith,
  list_beq_iff t (text "fx"),
  list_beq_iff (str_of_option d.fx_id) id,
  get-put s.fx_names (str_of_option d.fx_id) id (label_value d.str_value),
  agree_at a id fx',
  agree_at a id fx,
  fold_block-name d fx,
)

-- A known block was found, and this is what came of it.
record Found (d : DecodedValue) (now : ℕ) (s s' : PatchState) (r : ApplyResult) : Type 0 where
  t : Text
  es : List FxBlock
  fx : FxBlock
  ready : is_ready s ≡ true
  typed : d.fx_type ≡ some t
  scanned : get s.scans t ≡ some es
  found : find_first (str_of_option d.fx_id) es ≡ some fx
  result : apply_found d t now es s fx ≡ (r, s')

apply-cases :
    (d : DecodedValue) (now : ℕ) (s s' : PatchState) (r : ApplyResult)
    → apply d now s ≡ ok (r, s')
    → (s' ≡ s) ⊎ Found d now s s' r
unfolding apply apply_entries
apply-cases d now s s' r h = elim (Bool-cases (is_ready s)) [
  | inr e ↦ inl (ground arith)
  | inl ready ↦ elim (Option-cases (entries_of d.fx_type s)) [
    | inl e ↦ inl (ground arith)
    | inr ((t, es), e) ↦ elim (Option-cases (find_first (str_of_option d.fx_id) es)) [
      | inl e' ↦ inl (ground arith)
      | inr (fx, found) ↦
          let (typed, scanned) = entries_of-get d.fx_type s t es e in
          inr (record {
            t = t;
            es = es;
            fx = fx;
            ready = ready;
            typed = typed;
            scanned = scanned;
            found = found;
            result = ground arith;
          })
    ]
  ]
]

Found-NamesAgree :
    (d : DecodedValue) (now : ℕ) (s s' : PatchState) (r : ApplyResult)
    → Found d now s s' r
    → NamesAgree s
    → NamesAgree s'
unfolding apply_found
Found-NamesAgree d now s s' r f a = record {
  agree = λ id. Named-intro s'.fx_names id (block (text "fx") id s') λ fx' h.
      let same : (apply_found d f.t now f.es s f.fx).1 ≡ s' = ap (λ p. p.1) f.result in
      let before = subst (λ u. block (text "fx") id u ≡ some fx') (sym same) h in
      let blocks =
        blocks-found d now s f.t f.es f.fx f.ready f.typed f.scanned f.found (text "fx") id in
      subst (λ u. get u.fx_names id ≡ some fx'.name) same
        (apply_found-NamesAgree d now s f.t f.es f.fx f.scanned f.found a id fx'
          (sym blocks ∙ before));
}

-- An inbound value keeps the resolved effect names in step with the fx blocks, whatever it is.
pub apply-NamesAgree :
    (d : DecodedValue) (now : ℕ) (s s' : PatchState) (r : ApplyResult)
    → apply d now s ≡ ok (r, s')
    → NamesAgree s
    → NamesAgree s'
apply-NamesAgree d now s s' r h a = elim (apply-cases d now s s' r h) [
  | inl e ↦ subst NamesAgree (sym e) a
  | inr f ↦ Found-NamesAgree d now s s' r f a
]
