-- ===== src/AddressMap/Values.antt =====
-- pygt1000/address_map.py: the bytes of a value, written and read.
use native.Mathlib.Nat.{mod-eq_of_lt}
use pygt.Base.{
  ℕ, ◌^◌, ◌<◌, ◌≤◌, ◌≡◌, refl, ap, ◌∙◌, sym, List, [], ◌∷◌, ok, arith, list_eq, nat_eq, length,
  take,
}
use pygt.Bytes.{pack_nibbles, unpack_nibbles}
use pygt.Bytes.Nibbles.{unpack_nibbles-pack_nibbles, pack_nibbles_shape}
use pygt.Values.{int}
use pygt.AddressMap.Encode.{value_bytes}
use pygt.AddressMap.Decode.{reply, int_value_of}

-- A value that the bytes of a setting can hold: a nibble in each, or one byte.
pub data Fits (width raw : ℕ) : Type 0 where
  nibbles : 1 < width → raw < 16 ^ width → Fits width raw
  one_byte : width ≤ 1 → raw < 256 → Fits width raw

take-length : (xs : List ℕ) → take (length xs) xs ≡ xs
take-length [] = refl
take-length (x ∷ xs) = ap (λ l. x ∷ l) (take-length xs)

take_all : (n : ℕ) (xs : List ℕ) → length xs ≡ n → take n xs ≡ xs
take_all n xs e = ap (λ k. take k xs) (sym e) ∙ take-length xs

unpack-take-pack :
    (width raw : ℕ) → raw < 16 ^ width → unpack_nibbles (take width (pack_nibbles raw width)) ≡ raw
unpack-take-pack width raw fits =
    ap unpack_nibbles (take_all width (pack_nibbles raw width) (pack_nibbles_shape raw width).0)
    ∙ unpack_nibbles-pack_nibbles raw width
    ∙ mod-eq_of_lt fits

-- The bytes of a value are read back as the value.
pub int_value_of-value_bytes :
    (width raw : ℕ)
    → Fits width raw
    → (bs : List ℕ) × (value_bytes width (int raw) ≡ ok bs)
      × (int_value_of width (reply bs) ≡ ok raw)
unfolding value_bytes int_value_of
int_value_of-value_bytes width raw (nibbles wide fits) =
    (pack_nibbles raw width, ground arith, ground (arith, unpack-take-pack width raw fits))
int_value_of-value_bytes width raw (one_byte narrow fits) = (raw ∷ [], ground arith, ground arith)
