-- ===== src/Scripts/Converters/Effects.antt =====
-- scripts/spec-to-json.py: the types of blocks whose instances share a table, their numbers and letters.
use pygt.Base.{◌≡◌, refl, Text, text, none, List, [], ◌∷◌, ◌++◌, All, strip_prefix}
use pygt.Scripts.Converters.Shared.{
  IsClear, Keeps, each_steps, each_steps-none, IsOwn, steps-own, each_steps-own,
}

-- The types with numbered blocks, their numbers, and the letters of the preamps.
abbrev pub effects : List Text
effects = text "Dist" ∷ text "Ns" ∷ text "Eq" ∷ text "Fx" ∷ text "Delay" ∷ []

abbrev pub digits : List Text
digits = text "1" ∷ text "2" ∷ text "3" ∷ text "4" ∷ []

abbrev pub letters : List Text
letters = text "A" ∷ text "B" ∷ []

-- Text that begins with none of the names.
abbrev pub BeginsWithNone : List Text → Text → Type 0
BeginsWithNone names t = All (λ name. strip_prefix name t ≡ none) names

pub effects-Keeps : All Keeps effects
effects-Keeps = (
  λ r h. (refl, (refl, (refl, (refl, h)))),
  (
    λ r h. (refl, (refl, h)),
    (
      λ r h. (refl, (refl, h)),
      (λ r h. (refl, (refl, h)), (λ r h. (refl, (refl, (refl, (refl, (refl, h))))), tt)),
    ),
  ),
)

pub preamp-Keeps : All Keeps (text "Preamp" ∷ [])
preamp-Keeps = (λ r h. (refl, (refl, (refl, (refl, (refl, (refl, h)))))), tt)

dist-IsOwn : IsOwn effects (text "Dist")
dist-IsOwn = record {
  stays = λ i r h. (h, (refl, (refl, (refl, (refl, tt)))));
  drops = λ i s.
      steps-own [] (text "Ns" ∷ text "Eq" ∷ text "Fx" ∷ text "Delay" ∷ []) (text "Dist") i s tt
        (refl, (refl, (refl, (refl, tt))));
}

ns-IsOwn : IsOwn effects (text "Ns")
ns-IsOwn = record {
  stays = λ i r h. (refl, (h, (refl, (refl, (refl, tt)))));
  drops = λ i s.
      steps-own (text "Dist" ∷ []) (text "Eq" ∷ text "Fx" ∷ text "Delay" ∷ []) (text "Ns") i s
        (refl, tt) (refl, (refl, (refl, tt)));
}

eq-IsOwn : IsOwn effects (text "Eq")
eq-IsOwn = record {
  stays = λ i r h. (refl, (refl, (h, (refl, (refl, tt)))));
  drops = λ i s.
      steps-own (text "Dist" ∷ text "Ns" ∷ []) (text "Fx" ∷ text "Delay" ∷ []) (text "Eq") i s
        (refl, (refl, tt)) (refl, (refl, tt));
}

fx-IsOwn : IsOwn effects (text "Fx")
fx-IsOwn = record {
  stays = λ i r h. (refl, (refl, (refl, (h, (refl, tt)))));
  drops = λ i s.
      steps-own (text "Dist" ∷ text "Ns" ∷ text "Eq" ∷ []) (text "Delay" ∷ []) (text "Fx") i s
        (refl, (refl, (refl, tt))) (refl, tt);
}

delay-IsOwn : IsOwn effects (text "Delay")
delay-IsOwn = record {
  stays = λ i r h. (refl, (refl, (refl, (refl, (h, tt)))));
  drops = λ i s.
      steps-own (text "Dist" ∷ text "Ns" ∷ text "Eq" ∷ text "Fx" ∷ []) [] (text "Delay") i s
        (refl, (refl, (refl, (refl, tt)))) tt;
}

preamp-IsOwn : IsOwn (text "Preamp" ∷ []) (text "Preamp")
preamp-IsOwn = record {
  stays = λ i r h. (h, tt);
  drops = λ i s. steps-own [] [] (text "Preamp") i s tt tt;
}

pub effects-IsOwn : All (IsOwn effects) effects
effects-IsOwn = (dist-IsOwn, (ns-IsOwn, (eq-IsOwn, (fx-IsOwn, (delay-IsOwn, tt)))))

pub drop_digit :
    (effect s : Text)
    → IsOwn effects effect
    → BeginsWithNone digits s
    → All (λ i. each_steps digits effects (effect ++ (i ++ s)) ≡ effect ++ s) digits
drop_digit effect s own (_, (h2, (h3, (h4, _)))) =
    let drop = each_steps-own effects effect own in
    (
      drop [] (text "2" ∷ text "3" ∷ text "4" ∷ []) (text "1") s tt (h2, (h3, (h4, tt))),
      (
        drop (text "1" ∷ []) (text "3" ∷ text "4" ∷ []) (text "2") s (refl, tt) (h3, (h4, tt)),
        (
          drop (text "1" ∷ text "2" ∷ []) (text "4" ∷ []) (text "3") s (refl, (refl, tt)) (h4, tt),
          (
            drop (text "1" ∷ text "2" ∷ text "3" ∷ []) [] (text "4") s (refl, (refl, (refl, tt)))
                tt,
            tt,
          ),
        ),
      ),
    )

pub drop_letter :
    (s : Text)
    → BeginsWithNone letters s
    → All
        (λ i.
          each_steps letters (text "Preamp" ∷ []) (text "Preamp" ++ (i ++ s)) ≡ text "Preamp" ++ s)
        letters
drop_letter s (_, (h, _)) =
    let drop = each_steps-own (text "Preamp" ∷ []) (text "Preamp") preamp-IsOwn in
    (
      drop [] (text "B" ∷ []) (text "A") s tt (h, tt),
      (drop (text "A" ∷ []) [] (text "B") s (refl, tt) tt, tt),
    )

-- No letter is dropped behind the name of another type, and no number behind "Preamp".
pub no_letter :
    (s : Text)
    → All (λ effect. each_steps letters (text "Preamp" ∷ []) (effect ++ s) ≡ effect ++ s) effects
no_letter s =
    let none_of = each_steps-none letters (text "Preamp" ∷ []) in
    (
      none_of (text "Dist" ++ s) ((refl, tt), ((refl, tt), tt)),
      (
        none_of (text "Ns" ++ s) ((refl, tt), ((refl, tt), tt)),
        (
          none_of (text "Eq" ++ s) ((refl, tt), ((refl, tt), tt)),
          (
            none_of (text "Fx" ++ s) ((refl, tt), ((refl, tt), tt)),
            (none_of (text "Delay" ++ s) ((refl, tt), ((refl, tt), tt)), tt),
          ),
        ),
      ),
    )

pub preamp_apart :
    (s : Text) (is : List Text)
    → All (λ i. All (λ effect. strip_prefix (effect ++ i) (text "Preamp" ++ s) ≡ none) effects) is
preamp_apart s [] = tt
preamp_apart s (i ∷ is) = ((refl, (refl, (refl, (refl, (refl, tt))))), preamp_apart s is)

pub digits-IsClear : (s : Text) → IsClear s → All (λ j. IsClear (j ++ s)) digits
digits-IsClear s h = ((refl, h), ((refl, h), ((refl, h), ((refl, h), tt))))

pub letters-IsClear : (s : Text) → IsClear s → All (λ j. IsClear (j ++ s)) letters
letters-IsClear s h = ((refl, h), ((refl, h), tt))
