-- ===== src/Bytes.antt =====
-- The number helpers of pygt1000/address_map.py: big-endian bytes and 4-bit nibbles. The numbers are
-- natural: the program's addresses, and the raw values it packs, are never negative.
pub mod Nibbles
pub mod Integers
use pygt.Base.{ℕ, zero, suc, ◌+◌, ◌*◌, ◌/◌, ◌%◌, ◌^◌, List, [], ◌∷◌, ◌==◌, nat_eq, true, false}

-- `int.from_bytes(value, byteorder="big")`
unfoldable pub from_bytes : ℕ → List ℕ → ℕ
from_bytes acc [] = acc
from_bytes acc (b ∷ bs) = from_bytes (acc * 256 + b) bs

unfoldable pub bytes_to_int : List ℕ → ℕ
unfolding from_bytes
bytes_to_int value = from_bytes 0 value

-- `(value >> (4 * i)) & 0x0F` for each `i` from `width - 1` down to 0.
unfoldable pub pack_nibbles : ℕ → ℕ → List ℕ
pack_nibbles value zero = []
pack_nibbles value (suc i) = (value / 2 ^ (4 * i) % 16) ∷ pack_nibbles value i

-- `(value << 4) | (byte & 0x0F)`: the nibble falls into four bits that the shift has cleared.
unfoldable pub unpack_from : ℕ → List ℕ → ℕ
unpack_from value [] = value
unpack_from value (byte ∷ rest) = unpack_from (value * 16 + byte % 16) rest

unfoldable pub unpack_nibbles : List ℕ → ℕ
unfolding unpack_from
unpack_nibbles nibbles = unpack_from 0 nibbles

-- `n.bit_length()`, on fuel `n`.
unfoldable pub bit_length_fuel : ℕ → ℕ → ℕ
bit_length_fuel zero n = 0
bit_length_fuel (suc f) n = elim (n == 0) [ true ↦ 0 | false ↦ suc (bit_length_fuel f (n / 2)) ]

unfoldable pub bit_length : ℕ → ℕ
bit_length n = bit_length_fuel n n

-- `n.to_bytes(width, byteorder="big")`, for an `n` that fits.
unfoldable pub to_bytes : ℕ → ℕ → List ℕ
to_bytes n zero = []
to_bytes n (suc i) = (n / 256 ^ i % 256) ∷ to_bytes n i

-- `n.to_bytes((n.bit_length() + 7) // 8, byteorder="big")`: no leading zeros.
unfoldable pub int_to_bytes : ℕ → List ℕ
unfolding to_bytes
int_to_bytes n = to_bytes n ((bit_length n + 7) / 8)
