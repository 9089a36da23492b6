-- ===== src/Chain/RoundTrip.antt =====
-- pygt1000/chain.py, `serialize_chain` against `parse_chain`.
use pygt.Base.{
  ℕ, zero, suc, ◌<◌, ◌≡◌, refl, sym, ap, subst, ◌∙◌, Text, text, true, false, some, List, [], ◌∷◌,
  ◌++◌, length, length-append, starts_with, append_assoc, append-nil, list_beq_iff, arith,
}
use pygt.Chain.{
  Blocks, Block, nil, cons, effect, divider, Tokens, Parser, is_stop, branchsplit_token,
  mixer_token, parse_divider, parse_chain, parse, serialize_chain,
}
use pygt.Chain.Total.{IsStopped}

-- Blocks that can stand where the parser stops at `stop`: no effect looks like a divider, each divider has
-- the mixer of its own number, and no block begins with a token at which the parser stops there.
unfoldable mutual
  pub IsBlock : Tokens → Block → Type 0
  IsBlock stop (effect name) =
      (is_stop stop name ≡ false) × (starts_with name (text "DIVIDER") ≡ false)
  IsBlock stop (divider name a b mixer) =
      (is_stop stop name ≡ false)
      × (starts_with name (text "DIVIDER") ≡ true)
      × (mixer ≡ mixer_token name)
      × IsChain (branchsplit_token name ∷ mixer_token name ∷ []) a
      × IsChain (mixer_token name ∷ []) b

  pub IsChain : Tokens → Blocks → Type 0
  IsChain stop nil = Unit {0}
  IsChain stop (cons block blocks) = IsBlock stop block × IsChain stop blocks

pub is_stop_head : (t : Text) (ss : Tokens) → is_stop (t ∷ ss) t ≡ true
unfolding is_stop
is_stop_head t ss = ground (arith, list_beq_iff t t)

-- The two calls that a divider makes, put together.
parse_divider_parts :
    (p : Parser) (name mixer : Text) (a b : Blocks) (tokens behind_a left : Tokens)
    → p (branchsplit_token name ∷ mixer_token name ∷ []) tokens
      ≡ some (a, branchsplit_token name ∷ behind_a)
    → p (mixer_token name ∷ []) behind_a ≡ some (b, mixer ∷ left)
    → parse_divider p tokens name ≡ some (divider name a b mixer, left)
unfolding parse_divider
parse_divider_parts p name mixer a b tokens behind_a left ha hb = rw (ha, hb)

regroup :
    {A : Type 0} (xs ys zs rest : List A) (s m : A)
    → ((xs ++ s ∷ (ys ++ m ∷ [])) ++ zs) ++ rest ≡ xs ++ s ∷ (ys ++ m ∷ (zs ++ rest))
regroup xs ys zs rest s m = simp append_assoc

pub parse_chain-serialize_chain :
    (f : ℕ) (stop : Tokens) (bs : Blocks) (rest : Tokens)
    → IsChain stop bs
    → IsStopped stop rest
    → length (serialize_chain bs ++ rest) < f
    → parse_chain f stop (serialize_chain bs ++ rest) ≡ some (bs, rest)
unfolding parse_chain serialize_chain IsChain
parse_chain-serialize_chain zero stop bs rest w s h = absurd (omega arith)
parse_chain-serialize_chain (suc f) stop nil [] w s h = refl
parse_chain-serialize_chain (suc f) stop nil (t ∷ ts) w s h = rw s
parse_chain-serialize_chain (suc f) stop (cons (effect name) bs) rest w s h =
    rw (w.0.0, w.0.1, parse_chain-serialize_chain f stop bs rest w.1 s (omega arith))
parse_chain-serialize_chain (suc f) stop (cons (divider name a b mixer) bs) rest w s h =
    let tail : Tokens = mixer ∷ (serialize_chain bs ++ rest) in
    let behind_a : Tokens = serialize_chain b ++ tail in
    let shape =
      regroup (serialize_chain a) (serialize_chain b) (serialize_chain bs) rest
        (branchsplit_token name) mixer in
    let long : length (serialize_chain a ++ branchsplit_token name ∷ behind_a) < f =
      omega (arith, ap length shape) in
    let parse_a =
      parse_chain-serialize_chain f (branchsplit_token name ∷ mixer_token name ∷ []) a
        (branchsplit_token name ∷ behind_a) w.0.3
        (is_stop_head (branchsplit_token name) (mixer_token name ∷ [])) long in
    let parse_b =
      parse_chain-serialize_chain f (mixer_token name ∷ []) b tail w.0.4
        (subst (λ m. is_stop (mixer_token name ∷ []) m ≡ true) (sym w.0.2)
          (is_stop_head (mixer_token name) []))
        (omega (arith, length-append (serialize_chain a) (branchsplit_token name ∷ behind_a))) in
    let parse_rest = parse_chain-serialize_chain f stop bs rest w.1 s (
      omega (
        arith,
        length-append (serialize_chain a) (branchsplit_token name ∷ behind_a),
        length-append (serialize_chain b) tail,
      )) in
    rw (
      w.0.0,
      w.0.1,
      shape,
      parse_divider_parts (parse_chain f) name mixer a b
          (serialize_chain a ++ branchsplit_token name ∷ behind_a) behind_a
          (serialize_chain bs ++ rest) parse_a parse_b,
      parse_rest,
    )

-- A chain that is written as tokens is read back as it was, with every token used.
pub parse-serialize_chain :
    (bs : Blocks) → IsChain [] bs → parse (serialize_chain bs) ≡ some (bs, [])
unfolding parse
parse-serialize_chain bs w =
    ap (λ ts. parse_chain (suc (length (serialize_chain bs))) [] ts)
      (sym (append-nil (serialize_chain bs)))
    ∙ parse_chain-serialize_chain (suc (length (serialize_chain bs))) [] bs [] w tt
        (omega (arith, ap length (append-nil (serialize_chain bs))))
