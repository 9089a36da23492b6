-- ===== src/Transport/Ports.antt =====
-- Which ports the transport opens, and what becomes of the names that it was given.
use pygt.Base.{
  ◌≡◌, refl, sym, ap, ◌∙◌, Text, Bool, true, false, ◌&&◌, ◌||◌, ◌⊎◌, ◌==◌, list_eq, list_beq_iff,
  subst, Option, none, some, List, [], ◌∷◌, starts_with, arith, Bool-cases, inl, inr,
}
use pygt.AddressMap.Labels.{is_in}
use pygt.Transport.RtMidi.{
  World, RtMidiTransport, exact_name, given_or, exact_port_names, open_input, open_output,
  open_exact, open_ports,
}

-- A port has a name that begins so.
abbrev pub listed : List Text → Text → Bool
listed [] prefix = false
listed (name ∷ names) prefix = starts_with name prefix || listed names prefix

abbrev is_some {ℓ} : {A : Type ℓ} → Option A → Bool
is_some none = false
is_some (some a) = true

or_true : (b : Bool) → (b || true) ≡ true
or_true true = refl
or_true false = refl

exact_name-listed :
    (prefix : Text) (found : Option Text) (names : List Text)
    → is_some (exact_name prefix found names) ≡ (is_some found || listed names prefix)
unfolding exact_name
exact_name-listed prefix none [] = refl
exact_name-listed prefix (some n) [] = refl
exact_name-listed prefix found (name ∷ names) = elim (Bool-cases (starts_with name prefix)) [
  | inl begins ↦
      rw begins (exact_name-listed prefix (some name) names ∙ sym (or_true (is_some found)))
  | inr other ↦ rw other (exact_name-listed prefix found names)
]

abbrev Chosen : Text → List Text → Text → Type 0
Chosen prefix names n = (starts_with n prefix ≡ true) × (is_in n names ≡ true)

is_in-cons :
    (n name : Text) (names : List Text) → is_in n names ≡ true → is_in n (name ∷ names) ≡ true
unfolding is_in
is_in-cons n name names h = rw h (or_true (n == name))

is_in_head : (name : Text) (names : List Text) → is_in name (name ∷ names) ≡ true
unfolding is_in
is_in_head name names = rw ((list_beq_iff name name).1 refl) refl

found_here :
    (prefix name : Text) (names : List Text) {n : Text}
    → starts_with name prefix ≡ true
    → (some name ≡ some n) ⊎ Chosen prefix names n
    → Chosen prefix (name ∷ names) n
found_here prefix name names begins (inl same) =
    subst (Chosen prefix (name ∷ names)) (cc same) (begins, is_in_head name names)
found_here prefix name names {n} begins (inr (b, m)) = (b, is_in-cons n name names m)

later :
    (prefix : Text) {found : Option Text} (name : Text) (names : List Text) {n : Text}
    → (found ≡ some n) ⊎ Chosen prefix names n
    → (found ≡ some n) ⊎ Chosen prefix (name ∷ names) n
later prefix name names (inl same) = inl same
later prefix name names {n} (inr (b, m)) = inr (b, is_in-cons n name names m)

-- The name that is found begins so, and is one of the names.
exact_name_sound :
    (prefix : Text) (found : Option Text) (names : List Text) {n : Text}
    → exact_name prefix found names ≡ some n
    → (found ≡ some n) ⊎ Chosen prefix names n
unfolding exact_name
exact_name_sound prefix found [] h = inl h
exact_name_sound prefix found (name ∷ names) {n} h = elim (Bool-cases (starts_with name prefix)) [
  | inl begins ↦ inr (
      found_here prefix name names begins
        (exact_name_sound prefix (some name) names (rw begins at h)))
  | inr other ↦ later prefix name names (exact_name_sound prefix found names (rw other at h))
]

only_right : {n : Text} {P : Type 0} → (none ≡ some n) ⊎ P → P
only_right (inl e) = absurd (cc e)
only_right (inr p) = p

chosen :
    (prefix : Text) (names : List Text) {n : Text}
    → exact_name prefix none names ≡ some n
    → Chosen prefix names n
chosen prefix names h = only_right (exact_name_sound prefix none names h)

module _ {ℓ} {K : Type ℓ} (w : World) where
  open_exact-true :
      (names : Option Text × Option Text) (t : RtMidiTransport K)
      → (open_exact w names t).0
        ≡ (is_some names.0 && (is_some names.1 && (w.output_opens && w.input_opens)))
  unfolding open_exact open_output open_input
  open_exact-true (none, out) t = refl
  open_exact-true (some i, none) t = refl
  open_exact-true (some i, some o) t = ground arith

  -- Opening the MIDI ports succeeds exactly when a listed input and a listed output begin with the names given, or for one
  -- that is not given with the name in place, and both open.
  pub open_ports-true :
      (a b : Option Text) (t : RtMidiTransport K)
      → (open_ports w a b t).0 ≡ (
          listed w.inputs (given_or a t.in_portname)
          && (listed w.outputs (given_or b t.out_portname) && (w.output_opens && w.input_opens)))
  unfolding open_ports exact_port_names
  open_ports-true a b t =
      let i = given_or a t.in_portname in
      let o = given_or b t.out_portname in
      open_exact-true (exact_name i none w.inputs, exact_name o none w.outputs) _
      ∙ rw (exact_name-listed i none w.inputs, exact_name-listed o none w.outputs) refl

  -- What a successful opening leaves.
  pub record IsOpened (i o : Text) (t t' : RtMidiTransport K) : Type ℓ where
    pub in_listed : is_in t'.in_portname w.inputs ≡ true
    pub in_begins : starts_with t'.in_portname i ≡ true
    pub out_listed : is_in t'.out_portname w.outputs ≡ true
    pub out_begins : starts_with t'.out_portname o ≡ true
    pub input :
        t'.midi_in
        ≡ some (record {
          port = t'.in_portname;
          is_open = true;
          ignores_sysex = false;
          handler = t.on_receive;
        })
    pub output :
        t'.midi_out ≡ some (record { port = t'.out_portname; is_open = true; messages = [] })

  open_exact-opened :
      (i o : Text) (t : RtMidiTransport K)
      → (open_exact w (some i, some o) t).0 ≡ true
      → (open_exact w (some i, some o) t).1 ≡ record {
        in_portname = i;
        out_portname = o;
        midi_in =
            some
              (record { port = i; is_open = true; ignores_sysex = false; handler = t.on_receive });
        midi_out = some (record { port = o; is_open = true; messages = [] });
        on_receive = t.on_receive;
      }
  unfolding open_exact open_output open_input
  open_exact-opened i o t h = ground arith

  open_exact-IsOpened :
      (i o : Text) (names : Option Text × Option Text) (t t0 : RtMidiTransport K)
      → exact_name i none w.inputs ≡ names.0
      → exact_name o none w.outputs ≡ names.1
      → t.on_receive ≡ t0.on_receive
      → (open_exact w names t).0 ≡ true
      → IsOpened i o t0 (open_exact w names t).1
  open_exact-IsOpened i o (none, out) t t0 hi ho same h = (unfold open_exact in cc h)
  open_exact-IsOpened i o (some i', none) t t0 hi ho same h = (unfold open_exact in cc h)
  open_exact-IsOpened i o (some i', some o') t t0 hi ho same h =
      let (begins, listed_in) = chosen i w.inputs hi in
      let (begins', listed_out) = chosen o w.outputs ho in
      rw (open_exact-opened i' o' t h) (record {
        in_listed = listed_in;
        in_begins = begins;
        out_listed = listed_out;
        out_begins = begins';
        input =
            ap
              (λ k. some (record { port = i'; is_open = true; ignores_sysex = false; handler = k }))
              same;
        output = refl;
      })

  -- When opening succeeds, the names in place are those of ports that are listed and that begin with the names asked
  -- for, both ports are open under these names, and the input drops no SysEx and hands on to the callback.
  pub open_ports-IsOpened :
      (a b : Option Text) (t : RtMidiTransport K)
      → (open_ports w a b t).0 ≡ true
      → IsOpened (given_or a t.in_portname) (given_or b t.out_portname) t (open_ports w a b t).1
  unfolding open_ports exact_port_names
  open_ports-IsOpened a b t h =
      open_exact-IsOpened (given_or a t.in_portname) (given_or b t.out_portname) _ _ t refl refl
        refl h
