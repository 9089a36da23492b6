-- ===== src/Chain/Structure.antt =====
-- pygt1000/chain.py, `parse_divider`: dividers whose token list breaks off.
use pygt.Base.{
  ◌≡◌, ap, subst, suc, Text, text, true, some, [], ◌∷◌, ◌++◌, length, starts_with, append-nil,
  arith,
}
use pygt.Chain.{
  Block, Blocks, nil, cons, divider, Tokens, is_stop, branchsplit_token, mixer_token, parse_divider,
  parse_chain, parse, serialize_chain,
}
use pygt.Chain.RoundTrip.{IsChain, is_stop_head, parse_chain-serialize_chain}

module _ (name : Text) (a : Blocks) (divides : starts_with name (text "DIVIDER") ≡ true)
    (plain : IsChain (branchsplit_token name ∷ mixer_token name ∷ []) a) where
  is_stop_second :
      is_stop (branchsplit_token name ∷ mixer_token name ∷ []) (mixer_token name) ≡ true
  unfolding is_stop
  is_stop_second = ground (arith, is_stop_head (mixer_token name) [])

  parse_one_divider :
      (ts : Tokens) (block : Block)
      → parse_divider (parse_chain (suc (length ts))) ts name ≡ some (block, [])
      → parse (name ∷ ts) ≡ some (cons block nil, [])
  unfolding parse parse_chain is_stop
  parse_one_divider ts block e = rw (divides, e)

  divider_direct :
      let ts : Tokens = serialize_chain a ++ mixer_token name ∷ [] in
      parse_divider (parse_chain (suc (length ts))) ts name
      ≡ some (divider name a nil (mixer_token name), [])
  unfolding parse_divider
  divider_direct =
      let ts : Tokens = serialize_chain a ++ mixer_token name ∷ [] in
      let parsed =
        parse_chain-serialize_chain (suc (length ts))
          (branchsplit_token name ∷ mixer_token name ∷ []) a (mixer_token name ∷ []) plain
          is_stop_second (omega arith) in
      rw parsed

  divider_open :
      let ts : Tokens = serialize_chain a in
      parse_divider (parse_chain (suc (length ts))) ts name ≡ some (divider name a nil [], [])
  unfolding parse_divider
  divider_open =
      let ts : Tokens = serialize_chain a in
      let open_end =
        parse_chain-serialize_chain (suc (length ts))
          (branchsplit_token name ∷ mixer_token name ∷ []) a [] plain tt
          (omega (arith, ap length (append-nil ts))) in
      let parsed =
        subst
          (λ l.
            parse_chain (suc (length ts)) (branchsplit_token name ∷ mixer_token name ∷ []) l
            ≡ some (a, []))
          (append-nil ts) open_end in
      rw parsed

  -- With no split the mixer ends the divider and branch B is empty; with no tokens left the divider has no
  -- mixer. Written again, the first has a split that the token list had not.
  parse_incomplete :
      (parse (name ∷ (serialize_chain a ++ mixer_token name ∷ []))
        ≡ some (cons (divider name a nil (mixer_token name)) nil, []))
      × (parse (name ∷ serialize_chain a) ≡ some (cons (divider name a nil []) nil, []))
      × (serialize_chain (cons (divider name a nil (mixer_token name)) nil)
          ≡ name ∷ (serialize_chain a ++ branchsplit_token name ∷ mixer_token name ∷ []))
  unfolding serialize_chain
  parse_incomplete = (
    parse_one_divider _ _ divider_direct,
    parse_one_divider _ _ divider_open,
    append-nil (name ∷ (serialize_chain a ++ branchsplit_token name ∷ mixer_token name ∷ [])),
  )
