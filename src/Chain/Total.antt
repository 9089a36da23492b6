-- ===== src/Chain/Total.antt =====
-- pygt1000/chain.py, `parse_chain`: the fuel and what is left of the list.
use pygt.Base.{
  ℕ, zero, suc, ◌≤◌, ◌<◌, ◌≡◌, refl, ap, ◌∙◌, Text, text, true, Option, some, [], ◌∷◌, length,
  starts_with, inl, inr, Bool-cases, arith,
}
use pygt.Chain.{
  Blocks, Block, nil, cons, effect, divider, Tokens, Parser, is_stop, branchsplit_token,
  mixer_token, take_mixer, parse_branch_b, parse_divider, parse_chain, parse,
}

-- The parser stopped where it may: at the end, or in front of a stop token.
abbrev pub IsStopped : Tokens → Tokens → Type 0
IsStopped stop [] = Unit {0}
IsStopped stop (t ∷ ts) = is_stop stop t ≡ true

-- A call that returns, leaves no more than `n` tokens, and has stopped where it may.
abbrev Returns : Tokens → ℕ → Option (Blocks × Tokens) → Type 0
Returns stop n r =
    (bs : Blocks) × (left : Tokens) × (r ≡ some (bs, left))
    × (length left ≤ n)
    × IsStopped stop left

abbrev ReturnsBlock : ℕ → Option (Block × Tokens) → Type 0
ReturnsBlock n r = (b : Block) × (left : Tokens) × (r ≡ some (b, left)) × (length left ≤ n)

take_mixer_total :
    (name : Text) (a b : Blocks) (ts : Tokens)
    → (block : Block) × (left : Tokens) × (take_mixer name a b ts ≡ (block, left))
      × (length left ≤ length ts)
unfolding take_mixer
take_mixer_total name a b [] = (divider name a b [], [], refl, omega arith)
take_mixer_total name a b (t ∷ ts) = (divider name a b t, ts, refl, omega arith)

module _ (p : Parser) (n : ℕ)
    (total : (stop ts : Tokens) → length ts ≤ n → Returns stop (length ts) (p stop ts)) where
  parse_branch_b_total :
      (name : Text) (a : Blocks) (ts : Tokens)
      → length ts ≤ n
      → ReturnsBlock (length ts) (parse_branch_b p name a ts)
  unfolding parse_branch_b
  parse_branch_b_total name a [] h = (divider name a nil [], [], refl, omega arith)
  parse_branch_b_total name a (t ∷ ts) h = elim (Bool-cases (starts_with t (text "BRANCHSPLIT"))) [
    | inl split ↦
        let (b, left, e, short, _) = total (mixer_token name ∷ []) ts (omega arith) in
        let (block, rest, e', short') = take_mixer_total name a b left in
        rw (split, e, e') (block, rest, refl, omega arith)
    | inr direct ↦ rw direct (divider name a nil t, ts, refl, omega arith)
  ]

  parse_divider_total :
      (ts : Tokens) (name : Text)
      → length ts ≤ n
      → ReturnsBlock (length ts) (parse_divider p ts name)
  unfolding parse_divider
  parse_divider_total ts name h =
      let (a, left, e, short, _) = total (branchsplit_token name ∷ mixer_token name ∷ []) ts h in
      let (block, rest, e', short') = parse_branch_b_total name a left (omega arith) in
      rw (e, e') (block, rest, refl, omega arith)

parse_chain_total :
    (f : ℕ) (stop ts : Tokens) → length ts < f → Returns stop (length ts) (parse_chain f stop ts)
unfolding parse_chain
parse_chain_total zero stop ts h = absurd (omega arith)
parse_chain_total (suc f) stop [] h = (nil, [], refl, omega arith, tt)
parse_chain_total (suc f) stop (t ∷ ts) h =
    let smaller : (stop' ts' : Tokens)
        → length ts' ≤ length ts
        → Returns stop' (length ts') (parse_chain f stop' ts') =
      λ stop' ts' h'. parse_chain_total f stop' ts' (omega arith) in
    elim (Bool-cases (is_stop stop t)) [
      | inl stops ↦ rw stops (nil, t ∷ ts, refl, omega arith, stops)
      | inr goes ↦ elim (Bool-cases (starts_with t (text "DIVIDER"))) [
        | inl divides ↦
            let (block, left, e, short) =
              parse_divider_total (parse_chain f) (length ts) smaller ts t (omega arith) in
            let (bs, end, e', short', stopped) = smaller stop left short in
            rw (goes, divides, e, e') (cons block bs, end, refl, omega arith, stopped)
        | inr plain ↦
            let (bs, end, e', short', stopped) = smaller stop ts (omega arith) in
            rw (goes, plain, e') (cons (effect t) bs, end, refl, omega arith, stopped)
      ]
    ]

not_stopped_in_none : (left : Tokens) → IsStopped [] left → left ≡ []
unfolding is_stop
not_stopped_in_none [] h = refl
not_stopped_in_none (t ∷ ts) h = cc

-- `parse` returns on every token list, and has then taken every token off the caller's list.
pub parse_total : (ts : Tokens) → (bs : Blocks) × (parse ts ≡ some (bs, []))
unfolding parse
parse_total ts =
    let (bs, left, e, _, stopped) = parse_chain_total (suc (length ts)) [] ts (omega arith) in
    (bs, e ∙ ap (λ l. some (bs, l)) (not_stopped_in_none left stopped))
