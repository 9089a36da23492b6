-- ===== src/Bytes/Nibbles.antt =====
-- pygt1000/address_map.py, `pack_nibbles` against `unpack_nibbles`.
use native.Mathlib.Nat.{
  mul-add-mod_self_left, mod-eq_of_lt, div-add-mod, mod-lt, pow-suc, mod-one, one-le-pow,
  mul-le-mul_right, mul-add-div_right, div-eq_of_lt,
}
use native.Mathlib.Numerals.{towards_suc}
use pygt.Base.{
  ℕ, zero, suc, ◌+◌, ◌*◌, ◌/◌, ◌%◌, ◌^◌, ◌<◌, ◌≤◌, ◌≡◌, refl, ap, ◌∙◌, List, [], ◌∷◌, length, All,
  arith,
}
use pygt.Bytes.{pack_nibbles, unpack_from, unpack_nibbles}

-- The lower digits of a number in base `b`, one digit more.
pub mod-mul_digit : (v p b : ℕ) → 0 < p → 0 < b → v % (p * b) ≡ (v / p % b) * p + v % p
mod-mul_digit v p b hp hb =
    let q : ℕ = v / p in
    let r : ℕ = v % p in
    let low : ℕ = p * (q % b) + r in
    let hq : b * (q / b) + q % b ≡ q = div-add-mod q b in
    let hv : p * q + r ≡ v = div-add-mod v p in
    let hr : r < p = mod-lt v hp in
    let hd : q % b < b = mod-lt q hb in
    let whole : v ≡ p * b * (q / b) + low = grind (arith, ap (λ (t : ℕ). p * t) hq) in
    let small : low < p * b = grind arith in
    ap (λ t. t % (p * b)) whole
    ∙ mul-add-mod_self_left (p * b) (q / b) low
    ∙ mod-eq_of_lt small
    ∙ omega arith

pow-add_four : (k : ℕ) → 2 ^ (k + 4) ≡ 16 * 2 ^ k
pow-add_four k = simp towards_suc (omega arith)

pow_sixteen : (w : ℕ) → 2 ^ (4 * w) ≡ 16 ^ w
pow_sixteen zero = refl
pow_sixteen (suc w) =
    ap (λ t. 2 ^ t) {x = 4 * suc w} {y = 4 * w + 4} (omega arith)
    ∙ pow-add_four (4 * w)
    ∙ omega (arith, pow_sixteen w, pow-suc 16 w)

unpack_from-pack_nibbles :
    (acc value w : ℕ) → unpack_from acc (pack_nibbles value w) ≡ acc * 16 ^ w + value % 16 ^ w
unfolding unpack_from pack_nibbles
unpack_from-pack_nibbles acc value zero = omega (arith, mod-one value)
unpack_from-pack_nibbles acc value (suc w) =
    rw
      (
        unpack_from-pack_nibbles (acc * 16 + value / 2 ^ (4 * w) % 16 % 16) value w,
        pow_sixteen w,
        pow-suc 16 w,
        mod-mul_digit value (16 ^ w) 16 (one-le-pow w 16 (omega arith)) (omega arith),
        mod-eq_of_lt (mod-lt (value / 16 ^ w) {m = 16} (omega arith)),
      )
      (omega arith)

pack_nibbles-suc :
    (value w : ℕ) → pack_nibbles value (suc w) ≡ value / 16 ^ w % 16 ∷ pack_nibbles value w
unfolding pack_nibbles
pack_nibbles-suc value w = rw (pow_sixteen w)

-- Only the digits below `16 ^ w` are packed into `w` nibbles.
pack_nibbles-add : (k value w : ℕ) → pack_nibbles (k * 16 ^ w + value) w ≡ pack_nibbles value w
pack_nibbles-add k value zero = unfold pack_nibbles in refl
pack_nibbles-add k value (suc w) =
    let p : ℕ = 16 ^ w in
    let pos : 0 < p = one-le-pow w 16 (omega arith) in
    let shift : k * 16 ^ suc w + value ≡ k * 16 * 16 ^ w + value =
      omega (arith, ap (λ (t : ℕ). k * t) (pow-suc 16 w)) in
    let digit : (k * 16 * p + value) / p % 16 ≡ value / p % 16 =
      omega (arith, mul-add-div_right {m = p} pos (k * 16) value) in
    rw (pack_nibbles-suc, pack_nibbles-suc, shift) (cc (digit, pack_nibbles-add (k * 16) value w))

-- A value that fits its nibbles is read back, and any value is read back modulo 16 to the width.
pub unpack_nibbles-pack_nibbles :
    (value width : ℕ) → unpack_nibbles (pack_nibbles value width) ≡ value % 16 ^ width
unfolding unpack_nibbles
unpack_nibbles-pack_nibbles value width = unpack_from-pack_nibbles 0 value width ∙ omega arith

abbrev IsNibble : ℕ → Type 0
IsNibble n = n < 16

unpack_from_acc :
    (acc : ℕ) (ds : List ℕ) → unpack_from acc ds ≡ acc * 16 ^ length ds + unpack_from 0 ds
unfolding unpack_from
unpack_from_acc acc [] = omega arith
unpack_from_acc acc (d ∷ ds) = omega (
  arith,
  unpack_from_acc (acc * 16 + d % 16) ds,
  unpack_from_acc (0 + d % 16) ds,
  ap (λ (t : ℕ). acc * t) (pow-suc 16 (length ds)),
)

unpack_from-lt : (ds : List ℕ) → unpack_from 0 ds < 16 ^ length ds
unfolding unpack_from
unpack_from-lt [] = omega arith
unpack_from-lt (d ∷ ds) =
    let digit : d % 16 ≤ 15 = omega arith in
    omega (
      arith,
      unpack_from_acc (0 + d % 16) ds,
      unpack_from-lt ds,
      pow-suc 16 (length ds),
      mul-le-mul_right (16 ^ length ds) digit,
    )

-- What is read from `n` nibbles fits them.
unpack_nibbles-lt : (ds : List ℕ) → unpack_nibbles ds < 16 ^ length ds
unfolding unpack_nibbles
unpack_nibbles-lt ds = unpack_from-lt ds

pack-unpack_from :
    (ds : List ℕ) → All IsNibble ds → pack_nibbles (unpack_from 0 ds) (length ds) ≡ ds
unfolding unpack_from
pack-unpack_from [] h = unfold pack_nibbles in refl
pack-unpack_from (d ∷ ds) h =
    let p : ℕ = 16 ^ length ds in
    let rest : ℕ = unpack_from 0 ds in
    let pos : 0 < p = one-le-pow (length ds) 16 (omega arith) in
    let whole : unpack_from (0 + d % 16) ds ≡ d * p + rest =
      unpack_from_acc (0 + d % 16) ds
      ∙ ap (λ t. t * p + rest) {x = 0 + d % 16} (omega (arith, h.0)) in
    let digit : (d * p + rest) / p % 16 ≡ d =
      omega (arith, mul-add-div_right {m = p} pos d rest, div-eq_of_lt (unpack_from-lt ds), h.0) in
    rw (whole, pack_nibbles-suc)
      (cc (digit, pack_nibbles-add d rest (length ds), pack-unpack_from ds h.1))

-- Nibbles that are read as a number are packed again as they were.
pack_nibbles-unpack_nibbles :
    (ds : List ℕ) → All IsNibble ds → pack_nibbles (unpack_nibbles ds) (length ds) ≡ ds
unfolding unpack_nibbles
pack_nibbles-unpack_nibbles ds h = pack-unpack_from ds h

-- A value packed into `width` nibbles gives `width` bytes below 16, as the wire wants.
pub pack_nibbles_shape :
    (value width : ℕ)
    → (length (pack_nibbles value width) ≡ width) × All IsNibble (pack_nibbles value width)
unfolding pack_nibbles
pack_nibbles_shape value zero = (refl, tt)
pack_nibbles_shape value (suc w) =
    let (n, all) = pack_nibbles_shape value w in (ap suc n, (omega arith, all))
