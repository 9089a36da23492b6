-- ===== src/Codec/Checksum.antt =====
-- pygt1000/sysex_codec.py, `calculate_checksum`.
use pygt.Base.{ℕ, ◌+◌, ◌%◌, ◌≤◌, ◌≡◌, refl, List, [], ◌∷◌, sum, ◌==◌, nat_eq, arith}
use pygt.Codec.{calculate_checksum, byte_at}

-- The checksum is one number between 1 and 128 that brings the sum of the payload to a multiple of
-- 128, and it is 128, which is no 7-bit data byte, exactly when the sum is such a multiple already.
pub calculate_checksum_lem :
    (bytes : List ℕ)
    → let c = byte_at (calculate_checksum bytes) 0 in
      (calculate_checksum bytes ≡ c ∷ [])
      × (1 ≤ c)
      × (c ≤ 128)
      × ((sum bytes + c) % 128 ≡ 0)
      × ((c == 128) ≡ (sum bytes % 128 == 0))
unfolding calculate_checksum
calculate_checksum_lem bytes = (refl, omega arith, omega arith, omega arith, ground arith)
