-- ===== src/Device/Trip.antt =====
-- pygt1000/chain.py, ChainCodec, with the table of the elements that scripts/chain-elements.py makes: what a chain is sent
-- as, and what is read from a reply.
use pygt.Base.{
  ℕ, ◌≡◌, refl, sym, ap, ◌∙◌, subst, ok, Text, text, false, some, List, [], ◌∷◌, ◌++◌, All,
  All-get_elem, list_eq, map, get_elem?,
}
use pygt.Base.Dict.{Dict, get}
use pygt.Base.Strings.{contains}
use pygt.Constants.{one_byte}
use pygt.AddressMap.{AddressMap, elements}
use pygt.Chain.{Blocks, parse, serialize_chain}
use pygt.Chain.RoundTrip.{IsChain, parse-serialize_chain}
use pygt.Device.{Device}
use pygt.Device.Chains.{byte_list, names_of, ints_of, read_names, read_chain, write_names, write}
use pygt.Scripts.Options.Names.{Distinct}
use pygt.Scripts.Converters.{elements_of_lines}
use pygt.Scripts.Converters.Elements.{
  Element, line_of, stored, all_keys, IsFound, elements_of_lines-IsFound, IsFound-chain_element,
}

-- An element of the list.
abbrev pub IsOf : List Element → Element → Type 0
IsOf es e = (i : ℕ) × (get_elem? es i ≡ some e)

abbrev pub numbers : List Element → List ℕ
numbers cs = map (λ (e : Element). e.number) cs

same_table :
    (es : List Element) (table : Dict Text Text)
    → All (λ e. contains (stored e) b'|' ≡ false) es
    → Distinct (all_keys es)
    → elements_of_lines (map line_of es) ≡ ok table
    → All (IsFound table) es
same_table es table bars differ made =
    let (d, e, found) = elements_of_lines-IsFound es bars differ in
    let same : d ≡ table = cc (sym e ∙ made) in subst (λ t. All (IsFound t) es) same found

module _ (m : AddressMap) (es : List Element) (table : Dict Text Text)
    (there : get m.tables (text "ChainElement") ≡ some (elements table))
    (found : All (IsFound table) es) where
  ints_of-stored :
      (cs : List Element) → All (IsOf es) cs → ints_of m (map stored cs) ≡ ok (numbers cs)
  unfolding ints_of
  ints_of-stored [] h = refl
  ints_of-stored (c ∷ cs) ((i, at), hs) =
      rw
        (
          (IsFound-chain_element m table c there (All-get_elem (IsFound table) es i found at)).0,
          ints_of-stored cs hs,
        )
        refl

  names_of-numbers :
      (cs : List Element) → All (IsOf es) cs → names_of m (numbers cs) ≡ ok (map stored cs)
  unfolding names_of
  names_of-numbers [] h = refl
  names_of-numbers (c ∷ cs) ((i, at), hs) =
      rw
        (
          (IsFound-chain_element m table c there (All-get_elem (IsFound table) es i found at)).1,
          names_of-numbers cs hs,
        )
        refl

-- Take an address map with an address for the chain, and with the table that is read from lines of elements whose names have no
-- bar and whose numbers and names less their blanks are all different. A well-formed chain whose tokens are names of such
-- elements is sent as the address followed by their numbers, and from a reply of these numbers it is read as it was, with
-- no token left over.
pub write-read_chain {ℓ} :
    {D : Type ℓ} (dev : Device D) (es : List Element) (table : Dict Text Text) (address : List ℕ)
    → All (λ e. contains (stored e) b'|' ≡ false) es
    → Distinct (all_keys es)
    → elements_of_lines (map line_of es) ≡ ok table
    → get dev.address_map.tables (text "ChainElement") ≡ some (elements table)
    → byte_list dev.address_map ≡ ok address
    → (blocks : Blocks) (cs : List Element) → IsChain [] blocks
    → All (IsOf es) cs
    → serialize_chain blocks ≡ map stored cs
    → (d d' d'' : D) → dev.fetch address one_byte d' ≡ (ok (some (numbers cs)), d'')
    → (write dev blocks d ≡ (ok tt, dev.set (address ++ numbers cs) d))
      × (read_chain dev d' ≡ (ok (some (blocks, [])), d''))
unfolding write write_names read_chain read_names
write-read_chain dev es table address bars differ made there placed blocks cs good known tokens d d'
      d'' replied =
    let found = same_table es table bars differ made in
    let sent = ints_of-stored dev.address_map es table there found cs known in
    let named = names_of-numbers dev.address_map es table there found cs known in
    let parsed : parse (map stored cs) ≡ some (blocks, []) =
      ap parse (sym tokens) ∙ parse-serialize_chain blocks good in
    (rw (tokens, sent, placed) refl, rw (placed, replied, named, parsed) refl)
