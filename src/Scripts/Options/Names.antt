-- ===== src/Scripts/Options/Names.antt =====
-- The lines of a setting's value names: how they are cut into names, and how these are numbered over several lines.
use pygt.Base.{
  ℕ, ◌+◌, ◌≡◌, ◌≢◌, refl, sym, ap, ◌∙◌, Text, Bool, true, false, List, [], ◌∷◌, ◌++◌, length,
  nat_beq, nat_eq, list_eq, ◌==◌, arith, append_assoc, append-nil, Bool-cases, inl, inr, All, ok,
}
use pygt.Base.Dict.{Dict, has, put, has-append, put_new, get_last, put_last}
use pygt.Base.Strings.{contains, is_space, is_empty, strip, strip_of, lstrip, rstrip, split_on}
use pygt.Base.Strings.Strip.{
  IsTrim, strip_of-IsTrim, strip_blanks, strip_blank_left, strip_blank_right,
}
use pygt.Base.Strings.Split.{contains-append, split_on-append, split_on_none}
use pygt.Scripts.Tables.Rows.{padded}
use pygt.Scripts.Options.Ranges.{Entry}
use pygt.Scripts.Options.Tails.{enumerate_from}
use pygt.Scripts.Options.Reading.{clean_options, add_options}

-- A name in a list of names.
pub record IsName (o : Text) : Type 0 where
  pub comma : contains o b',' ≡ false
  pub trim : IsTrim is_space o
  pub some_text : o ≢ []

-- `a, b, c`
abbrev pub join : List Text → Text
join [] = []
join (o ∷ []) = o
join (o ∷ p ∷ os) = o ++ b',' ∷ b' ' ∷ join (p ∷ os)

abbrev lead : Bool → Text → Text
lead true s = b' ' ∷ s
lead false s = s

strip-lead : (b : Bool) (o : Text) → IsTrim is_space o → strip (lead b o) ≡ o
strip-lead true o t = strip_blank_left o t
strip-lead false o t = unfold strip in strip_of-IsTrim is_space t

strip-lead_blank :
    (b : Bool) (o : Text) → IsTrim is_space o → o ≢ [] → strip (lead b (o ++ b' ' ∷ [])) ≡ o
strip-lead_blank true o t ne = strip_blanks o t ne
strip-lead_blank false o t ne = strip_blank_right o t ne

lead-contains : (b : Bool) (o : Text) → contains o b',' ≡ false → contains (lead b o) b',' ≡ false
unfolding contains
lead-contains true o h = h
lead-contains false o h = h

lead-append : (b : Bool) (o t : Text) → lead b (o ++ t) ≡ lead b o ++ t
lead-append true o t = refl
lead-append false o t = refl

is_empty-name : (o : Text) → o ≢ [] → is_empty o ≡ false
unfolding is_empty
is_empty-name [] ne = absurd (ne refl)
is_empty-name (c ∷ o) ne = refl

clean_options-cons :
    (o : Text) (os : List Text) {name : Text}
    → strip o ≡ name
    → name ≢ []
    → clean_options (o ∷ os) ≡ name ∷ clean_options os
unfolding clean_options
clean_options-cons o os {name} e ne = rw (e, is_empty-name name ne)

split_join :
    (b : Bool) (o : Text) (os : List Text)
    → All IsName (o ∷ os)
    → clean_options (split_on b',' (lead b (join (o ∷ os) ++ b' ' ∷ []))) ≡ o ∷ os
split_join b o [] h =
    let whole : contains (lead b (o ++ b' ' ∷ [])) b',' ≡ false =
      lead-contains b (o ++ b' ' ∷ [])
        (contains-append o (b' ' ∷ []) b',' ∙ rw h.0.comma (unfold contains in refl)) in
    rw (split_on_none b',' (lead b (o ++ b' ' ∷ [])) whole) (
      clean_options-cons (lead b (o ++ b' ' ∷ [])) [] (strip-lead_blank b o h.0.trim h.0.some_text)
        h.0.some_text
      ∙ (unfold clean_options in refl))
split_join b o (p ∷ os) h =
    let rest = b' ' ∷ (join (p ∷ os) ++ b' ' ∷ []) in
    ap (λ t. clean_options (split_on b',' t))
      (ap (lead b) (append_assoc o (b',' ∷ b' ' ∷ join (p ∷ os)) (b' ' ∷ []))
        ∙ lead-append b o (b',' ∷ rest))
    ∙ ap clean_options (split_on-append b',' (lead b o) rest (lead-contains b o h.0.comma))
    ∙ clean_options-cons (lead b o) (split_on b',' rest) (strip-lead b o h.0.trim) h.0.some_text
    ∙ ap (λ l. o ∷ l) (split_join true p os h.1)

padded-lead : (s : Text) → (b : Bool) × (padded s ≡ lead b (s ++ b' ' ∷ []))
padded-lead [] = (false, refl)
padded-lead (c ∷ cs) = elim (Bool-cases (nat_beq c b'#')) [
  | inl mark ↦ (false, rw mark)
  | inr plain ↦ (true, rw plain)
]

-- The names of a cell are found again.
pub clean_options-join :
    (os : List Text) → All IsName os → clean_options (split_on b',' (padded (join os))) ≡ os
clean_options-join [] h =
    (unfold clean_options split_on contains strip strip_of lstrip rstrip is_space is_empty in refl)
clean_options-join (o ∷ os) h =
    let (b, e) = padded-lead (join (o ∷ os)) in
    ap (λ t. clean_options (split_on b',' t)) e ∙ split_join b o os h

-- What the names of a setting stand for: consecutive values.
abbrev pub numbered : ℕ → List Text → Dict Text ℕ
numbered value [] = []
numbered value (o ∷ os) = (o, value) ∷ numbered (value + 1) os

-- No name stands twice.
abbrev pub Distinct : List Text → Type 0
Distinct [] = Unit
Distinct (o ∷ os) = All (λ p. (o == p) ≡ false) os × Distinct os

fresh_after :
    (d : Dict Text ℕ) (o : Text) (v : ℕ) (os : List Text)
    → All (λ p. has d p ≡ false) os
    → All (λ p. (o == p) ≡ false) os
    → All (λ p. has (d ++ (o, v) ∷ []) p ≡ false) os
unfolding has
fresh_after d o v [] h k = tt
fresh_after d o v (p ∷ os) h k =
    (has-append d ((o, v) ∷ []) p ∙ rw (h.0, has) (rw k.0 refl), fresh_after d o v os h.1 k.1)

enumerate_from-numbered :
    (os : List Text) (v : ℕ) (d : Dict Text ℕ)
    → All (λ p. has d p ≡ false) os
    → Distinct os
    → enumerate_from v os d ≡ d ++ numbered v os
unfolding enumerate_from
enumerate_from-numbered [] v d h k = sym (append-nil d)
enumerate_from-numbered (o ∷ os) v d h k =
    ap (enumerate_from (v + 1) os) (put_new d o v h.0)
    ∙ enumerate_from-numbered os (v + 1) (d ++ (o, v) ∷ []) (fresh_after d o v os h.1 k.0) k.1
    ∙ append_assoc d ((o, v) ∷ []) (numbered (v + 1) os)

All-fresh : (os : List Text) → All (λ p. has {V = ℕ} [] p ≡ false) os
unfolding has
All-fresh [] = tt
All-fresh (o ∷ os) = (refl, All-fresh os)

-- Writes one after the other, to names that differ, are the numbered names.
pub enumerate_from_new :
    (os : List Text) (v : ℕ) → Distinct os → enumerate_from v os [] ≡ numbered v os
enumerate_from_new os v k = enumerate_from-numbered os v [] (All-fresh os) k

pub enumerate_from-append :
    (os ps : List Text) (v : ℕ) (d : Dict Text ℕ)
    → enumerate_from v (os ++ ps) d ≡ enumerate_from (v + length os) ps (enumerate_from v os d)
unfolding enumerate_from
enumerate_from-append [] ps v d = ap (λ n. enumerate_from n ps d) {x = v} (omega arith)
enumerate_from-append (o ∷ os) ps v d =
    enumerate_from-append os ps (v + 1) (put d o v)
    ∙ ap (λ n. enumerate_from n ps (enumerate_from (v + 1) os (put d o v))) {x = v + 1 + length os}
        (omega arith)

-- The names go to the entry that was stored last.
pub add_options_last :
    (os : List Text) (name : Text) (v : ℕ) (d : Dict Text Entry) (e : Entry)
    → has d name ≡ false
    → add_options name v os (d ++ (name, e) ∷ [])
      ≡ ok (d ++ (name, record e { values = enumerate_from v os e.values }) ∷ [])
unfolding add_options enumerate_from
add_options_last [] name v d e h = refl
add_options_last (o ∷ os) name v d e h =
    rw (get_last d name e h, put_last d name e (record e { values = put e.values o v }) h)
      (add_options_last os name (v + 1) d (record e { values = put e.values o v }) h)
