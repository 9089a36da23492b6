-- ===== src/Values/Decimal.antt =====
-- Numbers printed by str() and read by int().
use pygt.Base.{
  ℕ, zero, suc, ◌+◌, ◌*◌, ◌/◌, ◌%◌, ◌-◌, ◌≤◌, ◌<◌, ◌≡◌, ◌≢◌, refl, sym, ap, ◌∙◌, Text, Bool, true,
  false, ◌&&◌, some, [], ◌∷◌, ◌++◌, ltb, leb, arith, append_assoc, append-nil, Bool-cases, inl, inr,
  All,
}
use pygt.Base.Strings.{contains, is_space}
use pygt.Base.Strings.Strip.{IsTrim, All-IsTrim}
use pygt.Values.{decimal_fuel, decimal, parse_digits, int_of_text}

abbrev pub IsDigit : ℕ → Type 0
IsDigit c = (48 ≤ c) × (c ≤ 57)

All-append : (s t : Text) → All IsDigit s → All IsDigit t → All IsDigit (s ++ t)
All-append [] t h k = k
All-append (c ∷ s) t h k = (h.0, All-append s t h.1 k)

decimal_fuel-IsDigit : (f n : ℕ) → All IsDigit (decimal_fuel f n)
unfolding decimal_fuel
decimal_fuel-IsDigit zero n = tt
decimal_fuel-IsDigit (suc f) n = elim (Bool-cases (ltb n 10)) [
  | inl small ↦ rw small ((omega arith, ground arith), tt)
  | inr large ↦ rw large (
      All-append _ ((48 + n % 10) ∷ []) (decimal_fuel-IsDigit f (n / 10))
        ((omega arith, omega arith), tt))
]

pub decimal-IsDigit : (n : ℕ) → All IsDigit (decimal n)
unfolding decimal
decimal-IsDigit n = decimal_fuel-IsDigit (suc n) n

append-ne-nil : (s : Text) (c : ℕ) → s ++ c ∷ [] ≢ []
append-ne-nil [] c e = cc
append-ne-nil (x ∷ s) c e = cc

parse_digits-digit :
    (acc d : ℕ) (t : Text)
    → d < 10
    → parse_digits acc ((48 + d) ∷ t) ≡ parse_digits (acc * 10 + d) t
unfolding parse_digits
parse_digits-digit acc d t h =
    let digit : (leb 48 (48 + d) && leb (48 + d) 57) ≡ true = ground arith in
    let value : 48 + d - 48 ≡ d = omega arith in rw (digit, value)

decimal_fuel_small : (f n : ℕ) → ltb n 10 ≡ true → decimal_fuel (suc f) n ≡ (48 + n) ∷ []
unfolding decimal_fuel
decimal_fuel_small f n h = rw h

decimal_fuel_large :
    (f n : ℕ)
    → ltb n 10 ≡ false
    → decimal_fuel (suc f) n ≡ decimal_fuel f (n / 10) ++ (48 + n % 10) ∷ []
unfolding decimal_fuel
decimal_fuel_large f n h = rw h

parse_digits-decimal_fuel :
    (f n : ℕ) (t : Text) → n < f → parse_digits 0 (decimal_fuel f n ++ t) ≡ parse_digits n t
parse_digits-decimal_fuel zero n t h = elim h [ ]
parse_digits-decimal_fuel (suc f) n t h = elim (Bool-cases (ltb n 10)) [
  | inl small ↦
      ap (λ s. parse_digits 0 (s ++ t)) (decimal_fuel_small f n small)
      ∙ parse_digits-digit 0 n t (ground arith)
      ∙ ap (λ m. parse_digits m t) {x = 0 * 10 + n} (omega arith)
  | inr large ↦
      ap (λ s. parse_digits 0 (s ++ t)) (decimal_fuel_large f n large)
      ∙ ap (parse_digits 0) (append_assoc (decimal_fuel f (n / 10)) ((48 + n % 10) ∷ []) t)
      ∙ parse_digits-decimal_fuel f (n / 10) ((48 + n % 10) ∷ t) (ground arith)
      ∙ parse_digits-digit (n / 10) (n % 10) t (omega arith)
      ∙ ap (λ m. parse_digits m t) {x = n / 10 * 10 + n % 10} (omega arith)
]

decimal_fuel-ne-nil : (f n : ℕ) → decimal_fuel (suc f) n ≢ []
unfolding decimal_fuel
decimal_fuel-ne-nil f n e = elim (Bool-cases (ltb n 10)) [
  | inl small ↦ cc (rw small at e)
  | inr large ↦ absurd (append-ne-nil (decimal_fuel f (n / 10)) (48 + n % 10) (rw large at e))
]

pub decimal-ne-nil : (n : ℕ) → decimal n ≢ []
unfolding decimal
decimal-ne-nil n = decimal_fuel-ne-nil n n

int_of_text_parse : (s : Text) → s ≢ [] → int_of_text s ≡ parse_digits 0 s
unfolding int_of_text
int_of_text_parse [] ne = absurd (ne refl)
int_of_text_parse (c ∷ cs) ne = refl

-- What is printed is read.
pub int_of_text-decimal : (n : ℕ) → int_of_text (decimal n) ≡ some n
unfolding parse_digits
int_of_text-decimal n = int_of_text_parse (decimal n) (decimal-ne-nil n) ∙ parsed
  where
    parsed : parse_digits 0 (decimal n) ≡ some n
    parsed =
        unfold decimal in
        (ap (parse_digits 0) (sym (append-nil (decimal_fuel (suc n) n)))
          ∙ parse_digits-decimal_fuel (suc n) n [] (omega arith))

-- A text of digits has no other character, and no blank.
pub contains-IsDigit :
    (s : Text) (c : ℕ) → All IsDigit s → (leb 48 c && leb c 57) ≡ false → contains s c ≡ false
unfolding contains
contains-IsDigit [] c h n = refl
contains-IsDigit (x ∷ s) c h n = ground (arith, contains-IsDigit s c h.1 n)

is_space-IsDigit : (c : ℕ) → IsDigit c → is_space c ≡ false
unfolding is_space
is_space-IsDigit c h = ground arith

digits_kept :
    (test : ℕ → Bool)
    → ((c : ℕ) → IsDigit c → test c ≡ false)
    → (s : Text) → All IsDigit s
    → All (λ c. test c ≡ false) s
digits_kept test k [] h = tt
digits_kept test k (c ∷ s) h = (k c h.0, digits_kept test k s h.1)

pub decimal-IsTrim :
    (test : ℕ → Bool) → ((c : ℕ) → IsDigit c → test c ≡ false) → (n : ℕ) → IsTrim test (decimal n)
decimal-IsTrim test k n =
    All-IsTrim test (decimal n) (digits_kept test k (decimal n) (decimal-IsDigit n))

pub decimal-IsTrim_space : (n : ℕ) → IsTrim is_space (decimal n)
decimal-IsTrim_space n = decimal-IsTrim is_space is_space-IsDigit n
