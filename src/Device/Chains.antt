-- ===== src/Device/Chains.antt =====
-- pygt1000/chain.py: the class ChainCodec, which reads and writes the chain of the device.
use pygt.Base.{
  ℕ, Text, text, Option, none, List, [], ◌∷◌, ◌++◌, Result, ok, type_error, or_raise, ◌>>=◌, Act,
  pure, lift, ◌>>>◌,
}
use pygt.Constants.{one_byte}
use pygt.Values.{str}
use pygt.AddressMap.{AddressMap}
use pygt.AddressMap.Blocks.{start_section}
use pygt.AddressMap.Encode.{address_for}
use pygt.AddressMap.Labels.{chain_element_name, chain_element_int}
use pygt.Chain.{Blocks, parse, serialize_chain}
use pygt.Device.{Device}

-- `_byte_list()`; a None fails where it is used as a list.
unfoldable pub byte_list : AddressMap → Result (List ℕ)
unfolding start_section
byte_list m =
    address_for m (start_section (text "efct") (str (text "0"))) (text "efct")
      (text "CHAIN ELEMENT1") none
    >>= λ address. or_raise address type_error

unfoldable pub names_of : AddressMap → List ℕ → Result (List Text)
names_of m [] = ok []
names_of m (i ∷ is) =
    chain_element_name m i >>= λ name. names_of m is >>= λ names. ok (name ∷ names)

unfoldable pub ints_of : AddressMap → List Text → Result (List ℕ)
ints_of m [] = ok []
ints_of m (name ∷ names) = chain_element_int m name >>= λ i. ints_of m names >>= λ is. ok (i ∷ is)

-- No reply is None, which cannot be iterated.
unfoldable pub read_names {ℓ} : {D : Type ℓ} → Device D → Act D (List Text)
unfolding byte_list names_of
read_names dev = lift (byte_list dev.address_map) >>> λ address.
    dev.fetch address one_byte >>> λ reply.
    lift (or_raise reply type_error) >>> λ int_chain. lift (names_of dev.address_map int_chain)

-- The blocks that `parse` returns; `none` of the inner option is a parse that ran out of fuel.
unfoldable pub read_chain {ℓ} : {D : Type ℓ} → Device D → Act D (Option (Blocks × List Text))
unfolding read_names
read_chain dev = read_names dev >>> λ names. pure (parse names)

unfoldable pub write_names {ℓ} : {D : Type ℓ} → Device D → List Text → Act {ℓ, 0} D Unit
unfolding byte_list ints_of
write_names dev txt_chain = lift (ints_of dev.address_map txt_chain) >>> λ int_chain.
    lift (byte_list dev.address_map) >>> λ address d. (ok tt, dev.set (address ++ int_chain) d)

unfoldable pub write {ℓ} : {D : Type ℓ} → Device D → Blocks → Act {ℓ, 0} D Unit
unfolding write_names
write dev blocks = write_names dev (serialize_chain blocks)
