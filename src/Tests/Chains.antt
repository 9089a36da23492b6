-- ===== src/Tests/Chains.antt =====
-- Chains as tokens and as blocks, and their way to the device.
use pygt.Base.{
  ℕ, ◌≡◌, refl, ok, none, some, text, List, [], ◌∷◌, arith, list_eq, list_beq, drop, ap, ◌>>=◌,
  or_raise, type_error, remove_all, Text, map, ◌++◌,
}
use pygt.Base.Dict.{Dict, get, has, put}
use pygt.AddressMap.{elements, patch_section}
use pygt.AddressMap.Blocks.{start_section}
use pygt.AddressMap.Addresses.{IsMapped, IsLaidOut, address_for-bytes}
use pygt.AddressMap.Labels.{is_in}
use pygt.Values.{decimal}
use pygt.Chain.{
  effect, divider, Blocks, nil, cons, Tokens, parse, serialize_chain, branchsplit_token,
  mixer_token, divider_id, is_stop, serialize_block,
}
use pygt.Chain.Total.{parse_total}
use pygt.Chain.RoundTrip.{IsChain, parse-serialize_chain}
use pygt.AddressMap.Load.{load}
use pygt.Device.{Device}
use pygt.Device.Chains.{byte_list, read_chain, write}
use pygt.Device.Trip.{numbers, write-read_chain}
use pygt.Scripts.Converters.{element_cells, store_both, read_elements, elements_of_lines}
use pygt.Scripts.Converters.Elements.{Element, line_of, stored}
use pygt.Base.Strings.{strip, split_on, replace}
use pygt.Tests.Sections.{chain_elements, elements-bars, elements-Distinct}
use pygt.Tests.Data.{a_map, patch_area, efct_area, chain_element1}

abbrev split_tokens : Tokens
split_tokens = text "DIVIDER1" ∷ text "EQ1" ∷ text "BRANCHSPLIT1" ∷ text "NS1" ∷ text "MIXER1" ∷ []

parse_total_example : (bs : Blocks) × (parse split_tokens ≡ some (bs, []))
parse_total_example = parse_total split_tokens

abbrev eq_branch : Blocks
eq_branch = cons (effect (text "EQ1")) nil

abbrev ns_branch : Blocks
ns_branch = cons (effect (text "NS1")) nil

abbrev split_chain : Blocks
split_chain = cons (divider (text "DIVIDER1") eq_branch ns_branch (text "MIXER1")) nil

split_chain-IsChain : IsChain [] split_chain
unfolding IsChain is_stop divider_id list_beq remove_all
split_chain-IsChain = ((refl, refl, refl, ((refl, refl), tt), ((refl, refl), tt)), tt)

parse-serialize_chain_example : parse (serialize_chain split_chain) ≡ some (split_chain, [])
parse-serialize_chain_example = parse-serialize_chain split_chain split_chain-IsChain

eq_branch-IsChain :
    IsChain (branchsplit_token (text "DIVIDER1") ∷ mixer_token (text "DIVIDER1") ∷ []) eq_branch
unfolding IsChain is_stop divider_id list_beq
eq_branch-IsChain = ((refl, refl), tt)

abbrev pub recorder : Device (List ℕ)
recorder = record {
  address_map = a_map;
  fetch = λ address len d. (ok (some (drop 4 d)), d);
  fx_name_for = λ fx_id d. (ok none, d);
  set_fx_name = λ fx_id name d. d;
  set = λ address_value d. address_value;
}

abbrev chain_address : List ℕ
chain_address = 16 ∷ 0 ∷ 16 ∷ 3 ∷ []

element1-IsMapped :
    IsMapped a_map patch_section
      (text "efct")
      (text "CHAIN ELEMENT1")
      patch_area
      efct_area
      chain_element1
unfolding load get is_in list_beq has put
element1-IsMapped = record {
  base = _;
  container = _;
  options = _;
  at_base = refl;
  at_section = refl;
  at_container = refl;
  at_option = refl;
  at_table = refl;
  at_setting = refl;
}

element1-IsLaidOut : IsLaidOut patch_area efct_area chain_element1 16 0 16 0 3
element1-IsLaidOut = record {
  section_bytes = refl;
  option_bytes = refl;
  setting_bytes = refl;
  a_pos = omega arith;
  a_byte = omega arith;
  b_byte = omega arith;
  c_byte = omega arith;
  no_carry = omega arith;
}

chain-address : byte_list a_map ≡ ok chain_address
unfolding byte_list start_section list_beq
chain-address =
    ap (λ r. r >>= λ a. or_raise a type_error)
      (address_for-bytes a_map patch_section (text "efct") (text "CHAIN ELEMENT1") patch_area
        efct_area chain_element1 16 0 16 0 3 element1-IsMapped element1-IsLaidOut)

-- The table that a_map holds is the one of the lines.
abbrev element_table : Dict Text Text
element_table =
    (text "0", text "COMPRESSOR")
    ∷ (text "COMPRESSOR", text "0")
    ∷ (text "1", text "DISTORTION1")
    ∷ (text "DISTORTION1", text "1")
    ∷ []

elements-made : elements_of_lines (map line_of chain_elements) ≡ ok element_table
unfolding elements_of_lines read_elements element_cells store_both replace strip split_on put has
    decimal list_beq
elements-made = refl

elements-loaded : get a_map.tables (text "ChainElement") ≡ some (elements element_table)
unfolding load get is_in list_beq has put
elements-loaded = refl

-- DISTORTION1, then COMPRESSOR.
abbrev two_effects : Blocks
two_effects = cons (effect (text "DISTORTION1")) (cons (effect (text "COMPRESSOR")) nil)

abbrev two_elements : List Element
two_elements =
    record { number = 1; name = text "DISTORTION 1" }
    ∷ record { number = 0; name = text "COMPRESSOR" }
    ∷ []

two_effects-IsChain : IsChain [] two_effects
unfolding IsChain is_stop divider_id list_beq
two_effects-IsChain = ((refl, refl), ((refl, refl), tt))

two_effects-tokens : serialize_chain two_effects ≡ map stored two_elements
unfolding serialize_chain serialize_block
two_effects-tokens = refl

write-read_chain_example :
    (write recorder two_effects []
      ≡ (ok tt, recorder.set (chain_address ++ numbers two_elements) []))
    × (read_chain recorder (chain_address ++ 1 ∷ 0 ∷ [])
        ≡ (ok (some (two_effects, [])), chain_address ++ 1 ∷ 0 ∷ []))
write-read_chain_example =
    write-read_chain recorder chain_elements element_table chain_address elements-bars
      elements-Distinct elements-made elements-loaded chain-address two_effects two_elements
      two_effects-IsChain ((1, refl), ((0, refl), tt)) two_effects-tokens []
      (chain_address ++ 1 ∷ 0 ∷ []) (chain_address ++ 1 ∷ 0 ∷ []) refl
