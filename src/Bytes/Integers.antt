-- ===== src/Bytes/Integers.antt =====
-- pygt1000/address_map.py, `to_bytes`: the minimal big-endian form of an integer.
use native.Mathlib.Nat.{pow-suc, pow-le-pow_right}
use native.Mathlib.Decide.{dec_lt}
use pygt.Base.{
  if◌then◌else◌, ℕ, zero, suc, ◌+◌, ◌*◌, ◌/◌, ◌^◌, ◌<◌, ◌≤◌, ◌≡◌, refl, ap, ◌∙◌, [], ◌∷◌, arith,
  inl, inr, Bool-cases, ◌==◌, nat_eq,
}
use pygt.Bytes.{bit_length_fuel, bit_length, to_bytes, int_to_bytes}

bit_length_fuel-zero : (f : ℕ) → bit_length_fuel f 0 ≡ 0
unfolding bit_length_fuel
bit_length_fuel-zero zero = refl
bit_length_fuel-zero (suc f) = refl

bit_length_fuel-suc :
    (f n : ℕ) → bit_length_fuel (suc f) n ≡ (if n == 0 then 0 else suc (bit_length_fuel f (n / 2)))
unfolding bit_length_fuel
bit_length_fuel-suc f n = ground arith

doubled :
    (f n : ℕ)
    → 0 < n
    → n / 2 < 2 ^ bit_length_fuel f (n / 2)
    → (0 < n / 2 → 2 ^ bit_length_fuel f (n / 2) ≤ 2 * (n / 2))
    → 0 < n
    → 2 ^ suc (bit_length_fuel f (n / 2)) ≤ 2 * n
doubled f n pos above below p = elim (Bool-cases (n / 2 == 0)) [
  | inl e ↦
      let z : n / 2 ≡ 0 = ground arith in
      let one : 2 ^ bit_length_fuel f (n / 2) ≡ 1 =
        ap (λ t. 2 ^ bit_length_fuel f t) z ∙ ap (λ t. 2 ^ t) (bit_length_fuel-zero f) in
      omega (arith, pow-suc 2 (bit_length_fuel f (n / 2)))
  | inr e ↦ grind (arith, pow-suc 2 (bit_length_fuel f (n / 2)), below (ground arith))
]

bit_length_fuel_bounds :
    (f n : ℕ) → n ≤ f → let k = bit_length_fuel f n in (n < 2 ^ k) × (0 < n → 2 ^ k ≤ 2 * n)
unfolding bit_length_fuel
bit_length_fuel_bounds zero n h = (omega arith, λ p. omega arith)
bit_length_fuel_bounds (suc f) n h = elim (Bool-cases (n == 0)) [
  | inl e ↦ rw (bit_length_fuel-suc f n, e) (ground arith, λ p. ground arith)
  | inr e ↦
      let (above, below) = bit_length_fuel_bounds f (n / 2) (ground arith) in
      rw (bit_length_fuel-suc f n, e)
        (
          grind (arith, pow-suc 2 (bit_length_fuel f (n / 2))),
          doubled f n (ground arith) above below,
        )
]

-- `n` lies below 2 to its bit length, and half of that is no more than `n`.
bit_length_bounds : (n : ℕ) → (n < 2 ^ bit_length n) × (0 < n → 2 ^ bit_length n ≤ 2 * n)
unfolding bit_length
bit_length_bounds n = bit_length_fuel_bounds n n (omega arith)

-- From 2^24 up to 2^32 a number takes four bytes.
bit_length-four : (n : ℕ) → 2 ^ 24 ≤ n → n < 2 ^ 32 → (bit_length n + 7) / 8 ≡ 4
bit_length-four n low high =
    let k : ℕ = bit_length n in
    let (above, below) = bit_length_bounds n in
    let long : 24 < k = elim (dec_lt 24 k) [
      | yes p ↦ p
      | no p ↦
          absurd
            (omega (arith, pow-le-pow_right {n = 2} (omega arith) {i = k} {j = 24} (omega arith)))
    ] in
    let short : k ≤ 32 = elim (dec_lt 32 k) [
      | yes p ↦ absurd (
          omega
            (arith, below (omega arith), pow-le-pow_right {n = 2} (omega arith) {i = 33} {j = k} p))
      | no p ↦ omega arith
    ] in
    omega arith

to_bytes-four :
    (a b c d : ℕ)
    → a < 256
    → b < 256
    → c < 256
    → d < 256
    → to_bytes (a * 16777216 + b * 65536 + c * 256 + d) 4 ≡ a ∷ b ∷ c ∷ d ∷ []
unfolding to_bytes
to_bytes-four a b c d ha hb hc hd = ground arith

-- The four bytes of a number whose first byte is not zero are the bytes that it is put together from.
pub int_to_bytes-four :
    (a b c d : ℕ)
    → 0 < a
    → a < 256
    → b < 256
    → c < 256
    → d < 256
    → int_to_bytes (a * 16777216 + b * 65536 + c * 256 + d) ≡ a ∷ b ∷ c ∷ d ∷ []
unfolding int_to_bytes
int_to_bytes-four a b c d pos ha hb hc hd =
    rw (bit_length-four (a * 16777216 + b * 65536 + c * 256 + d) (omega arith) (omega arith))
      (to_bytes-four a b c d ha hb hc hd)
