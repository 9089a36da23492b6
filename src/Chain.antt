-- ===== src/Chain.antt =====
-- pygt1000/chain.py: the effect chain as a token list and as a tree of blocks. Python's parser takes
-- its tokens off the caller's list; here each call returns what it leaves of it.
pub mod Total
pub mod RoundTrip
pub mod Structure
use pygt.Base.{
  ℕ, zero, suc, Text, text, Bool, false, ◌||◌, Option, none, some, List, [], ◌∷◌, ◌++◌, length,
  starts_with, remove_all, ◌==◌, list_eq, if◌then◌else◌, true,
}

mutual
  pub data Block : Type 0 where
    effect : Text → Block
    divider : (name : Text) → (branch_a branch_b : Blocks) → (mixer : Text) → Block

  pub data Blocks : Type 0 where
    nil : Blocks
    cons : Block → Blocks → Blocks

abbrev pub Tokens : Type 0
Tokens = List Text

-- `token in stop_tokens`
unfoldable pub is_stop : Tokens → Text → Bool
is_stop [] t = false
is_stop (s ∷ ss) t = s == t || is_stop ss t

-- `divider_name.replace("DIVIDER", "")`
unfoldable pub divider_id : Text → Text
divider_id name = remove_all (text "DIVIDER") name

abbrev pub branchsplit_token : Text → Text
branchsplit_token name = text "BRANCHSPLIT" ++ divider_id name

abbrev pub mixer_token : Text → Text
mixer_token name = text "MIXER" ++ divider_id name

-- `none`: the fuel ran out.
infixl 5 ◌>>=◌
abbrev pub ◌>>=◌ {ℓ κ} : {A : Type ℓ} {B : Type κ} → Option A → (A → Option B) → Option B
none >>= f = none
some a >>= f = f a

abbrev pub Parser : Type 0
Parser = Tokens → Tokens → Option (Blocks × Tokens)

-- Behind branch B: the mixer, if there is a token.
unfoldable pub take_mixer : Text → Blocks → Blocks → Tokens → Block × Tokens
take_mixer name a b [] = (divider name a b [], [])
take_mixer name a b (mixer ∷ rest) = (divider name a b mixer, rest)

-- Behind branch A: the split and branch B, or the mixer, or nothing.
unfoldable pub parse_branch_b : Parser → Text → Blocks → Tokens → Option (Block × Tokens)
unfolding take_mixer
parse_branch_b parse name a [] = some (divider name a nil [], [])
parse_branch_b parse name a (next_token ∷ rest) =
    if starts_with next_token (text "BRANCHSPLIT")
    then (parse (mixer_token name ∷ []) rest >>= λ (b, left). some (take_mixer name a b left))
    else some (divider name a nil next_token, rest)

unfoldable pub parse_divider : Parser → Tokens → Text → Option (Block × Tokens)
unfolding parse_branch_b
parse_divider parse tokens name =
    parse (branchsplit_token name ∷ mixer_token name ∷ []) tokens >>= λ (a, left).
    parse_branch_b parse name a left

-- The loop of `parse_chain`; each round and each nested call costs one unit of fuel.
unfoldable pub parse_chain : ℕ → Parser
unfolding parse_divider
parse_chain zero stop tokens = none
parse_chain (suc f) stop [] = some (nil, [])
parse_chain (suc f) stop (token ∷ rest) =
    let divided = parse_divider (parse_chain f) rest token >>= λ (block, left).
    parse_chain f stop left >>= λ (chain, end). some (cons block chain, end) in
    let plain = parse_chain f stop rest >>= λ (chain, end). some (cons (effect token) chain, end) in
    if is_stop stop token
    then some (nil, token ∷ rest)
    else if starts_with token (text "DIVIDER")
    then divided
    else plain

-- `parse_chain(tokens)`: the blocks, and what is left of the caller's list.
unfoldable pub parse : Tokens → Option (Blocks × Tokens)
unfolding parse_chain
parse tokens = parse_chain (suc (length tokens)) [] tokens

unfoldable mutual
  pub serialize_block : Block → Tokens
  serialize_block (effect name) = name ∷ []
  serialize_block (divider name a b mixer) =
      name ∷ (serialize_chain a ++ (branchsplit_token name ∷ (serialize_chain b ++ mixer ∷ [])))

  pub serialize_chain : Blocks → Tokens
  serialize_chain nil = []
  serialize_chain (cons block blocks) = serialize_block block ++ serialize_chain blocks
