-- ===== src/Link/Receive.antt =====
-- pygt1000/device_link.py, `_on_receive`: what arrives, against a description that looks at the frames alone.
use pygt.Base.{
  ℕ, ◌≡◌, ◌≢◌, refl, sym, ap, ◌∙◌, Bool, true, Option, none, some, List, [], ◌∷◌, ◌++◌,
  append_assoc, append-nil, ◌==◌, nat_eq, nat_beq_iff, list_eq, list_beq_iff, if◌then◌else◌, length,
  arith, Option-cases, inl, inr,
}
use pygt.Base.Dict.{get, has, put, get-put, has-get}
use pygt.Constants.{device_id_bcast}
use pygt.Codec.{IdentityReply, parse_data_reply, parse_identity_reply, is_identity, encode_dt1}
use pygt.Codec.Frames.{parse_data_reply-encode_dt1}
use pygt.Link.{DeviceLink, negotiate_identity, correlate, on_receive, receive}

-- The data of a frame that answers `key`.
unfoldable pub reply_at : ℕ → List ℕ → List ℕ → Option (List ℕ)
reply_at dev key message = elim (parse_data_reply dev message) [
  | none ↦ none
  | some (offset, values) ↦ if offset == key then some values else none
]

-- The data of the last frame of a batch that answers `key`, or else `before`.
unfoldable pub last_reply : ℕ → List ℕ → Option (List ℕ) → List (List ℕ) → Option (List ℕ)
unfolding reply_at
last_reply dev key before [] = before
last_reply dev key before (message ∷ messages) =
    last_reply dev key
      (elim (reply_at dev key message) [ some values ↦ some values | none ↦ before ]) messages

-- The data frames of a batch whose addresses do not satisfy `expected`.
unfoldable pub unexpected : ℕ → (List ℕ → Bool) → List (List ℕ) → List (List ℕ × List ℕ)
unexpected dev expected [] = []
unexpected dev expected (message ∷ messages) =
    let rest = unexpected dev expected messages in
    elim (parse_data_reply dev message) [
      | none ↦ rest
      | some (offset, values) ↦ if expected offset then rest else (offset, values) ∷ rest
    ]

on_receive-correlate :
    (m : List ℕ) (l : DeviceLink) → l.device_id ≢ device_id_bcast → on_receive m l ≡ correlate m l
unfolding on_receive
on_receive-correlate m l ne = ground (arith, nat_beq_iff l.device_id device_id_bcast)

has-put_same :
    {V : Type 0} (d : _) (k j : List ℕ) (v : V) → has d k ≡ true → has (put d k v) j ≡ has d j
has-put_same d k j v h =
    ground
      (arith, has-get d k, has-get d j, has-get (put d k v) j, get-put d k j v, list_beq_iff k j)

correlate-device_id : (m : List ℕ) (l : DeviceLink) → (correlate m l).device_id ≡ l.device_id
unfolding correlate
correlate-device_id m l = ground arith

correlate-sent : (m : List ℕ) (l : DeviceLink) → (correlate m l).sent ≡ l.sent
unfolding correlate
correlate-sent m l = ground arith

correlate-has :
    (m : List ℕ) (l : DeviceLink) (k : List ℕ) → has (correlate m l).pending k ≡ has l.pending k
unfolding correlate
correlate-has m l k = elim (Option-cases (parse_data_reply l.device_id m)) [
  | inl e ↦ ground arith
  | inr ((offset, values), e) ↦ ground (arith, has-put_same l.pending offset k (some values))
]

correlate-get :
    (m : List ℕ) (l : DeviceLink) (k : List ℕ) (v : Option (List ℕ))
    → get l.pending k ≡ some v
    → get (correlate m l).pending k
      ≡ some (elim (reply_at l.device_id k m) [ some values ↦ some values | none ↦ v ])
unfolding correlate reply_at
correlate-get m l k v h = elim (Option-cases (parse_data_reply l.device_id m)) [
  | inl e ↦ ground arith
  | inr ((offset, values), e) ↦
      ground (
        arith,
        has-get l.pending k,
        list_beq_iff offset k,
        get-put l.pending offset k (some values),
      )
]

correlate-unsolicited :
    (m : List ℕ) (l : DeviceLink)
    → (correlate m l).unsolicited ≡ l.unsolicited ++ unexpected l.device_id (has l.pending) (m ∷ [])
unfolding correlate unexpected
correlate-unsolicited m l = ground (arith, append-nil l.unsolicited)

unexpected-cons :
    (dev : ℕ) (f : List ℕ → Bool) (m : List ℕ) (ms : List (List ℕ))
    → unexpected dev f (m ∷ ms) ≡ unexpected dev f (m ∷ []) ++ unexpected dev f ms
unfolding unexpected
unexpected-cons dev f m ms = ground arith

unexpected-same :
    (dev : ℕ) (f g : List ℕ → Bool) (ms : List (List ℕ))
    → ((k : List ℕ) → f k ≡ g k)
    → unexpected dev f ms ≡ unexpected dev g ms
unfolding unexpected
unexpected-same dev f g [] h = refl
unexpected-same dev f g (m ∷ ms) h = elim (Option-cases (parse_data_reply dev m)) [
  | inl e ↦ ground (arith, unexpected-same dev f g ms h)
  | inr ((offset, values), e) ↦ ground (arith, h offset, unexpected-same dev f g ms h)
]

receive-cons :
    (m : List ℕ) (ms : List (List ℕ)) (l : DeviceLink)
    → l.device_id ≢ device_id_bcast
    → receive (m ∷ ms) l ≡ receive ms (correlate m l)
unfolding receive
receive-cons m ms l ne = ap (receive ms) (on_receive-correlate m l ne)

-- What `receive` leaves: the id, what was sent, and which addresses are waited for do not change.
pub receive-keeps :
    (ms : List (List ℕ)) (l : DeviceLink)
    → l.device_id ≢ device_id_bcast
    → ((receive ms l).device_id ≡ l.device_id)
      × ((receive ms l).sent ≡ l.sent)
      × ((k : List ℕ) → has (receive ms l).pending k ≡ has l.pending k)
unfolding receive
receive-keeps [] l ne = (refl, refl, λ k. refl)
receive-keeps (m ∷ ms) l ne =
    let ne' : (correlate m l).device_id ≢ device_id_bcast =
      λ e. ne (sym (correlate-device_id m l) ∙ e) in
    let (id, sent, keys) = receive-keeps ms (correlate m l) ne' in
    rw (receive-cons m ms l ne)
      (id ∙ correlate-device_id m l, sent ∙ correlate-sent m l, λ k. keys k ∙ correlate-has m l k)

-- An address that is waited for ends with the data of the last frame of the batch that answers it.
pub receive-get :
    (ms : List (List ℕ)) (l : DeviceLink) (k : List ℕ) (v : Option (List ℕ))
    → l.device_id ≢ device_id_bcast
    → get l.pending k ≡ some v
    → get (receive ms l).pending k ≡ some (last_reply l.device_id k v ms)
unfolding receive last_reply
receive-get [] l k v ne h = h
receive-get (m ∷ ms) l k v ne h =
    let ne' : (correlate m l).device_id ≢ device_id_bcast =
      λ e. ne (sym (correlate-device_id m l) ∙ e) in
    rw (receive-cons m ms l ne) (
      receive-get ms (correlate m l) k _ ne' (correlate-get m l k v h)
      ∙ ap
          (λ d. some (
            last_reply d k
              (elim (reply_at l.device_id k m) [ none ↦ v | some values ↦ some values ]) ms))
          (correlate-device_id m l))

-- While a device id is in place, the data frames of a batch at addresses that nobody waits for are handed to the
-- callback, each once and in the order they came, and no other frame is.
pub receive-unsolicited :
    (ms : List (List ℕ)) (l : DeviceLink)
    → l.device_id ≢ device_id_bcast
    → (receive ms l).unsolicited ≡ l.unsolicited ++ unexpected l.device_id (has l.pending) ms
unfolding receive unexpected
receive-unsolicited [] l ne = sym (append-nil l.unsolicited)
receive-unsolicited (m ∷ ms) l ne =
    let ne' : (correlate m l).device_id ≢ device_id_bcast =
      λ e. ne (sym (correlate-device_id m l) ∙ e) in
    let ih = receive-unsolicited ms (correlate m l) ne' in
    let same =
      unexpected-same l.device_id (has (correlate m l).pending) (has l.pending) ms
        (correlate-has m l) in
    ground (
      arith,
      receive-cons m ms l ne,
      ih,
      same,
      correlate-device_id m l,
      correlate-unsolicited m l,
      unexpected-cons l.device_id (has l.pending) m ms,
      append_assoc l.unsolicited (unexpected l.device_id (has l.pending) (m ∷ []))
          (unexpected l.device_id (has l.pending) ms),
    )

-- A data frame that the link's own device sends is kept for the waiter if its address is waited for, and is handed to
-- the callback if not, with its address and data as they were framed.
on_receive-encode_dt1 :
    (address values : List ℕ) (l : DeviceLink)
    → length address ≡ 4
    → l.device_id ≢ device_id_bcast
    → on_receive (encode_dt1 l.device_id (address ++ values) none) l ≡ (
        if has l.pending address
        then record l { pending = put l.pending address (some values) }
        else record l { unsolicited = l.unsolicited ++ (address, values) ∷ [] })
unfolding correlate
on_receive-encode_dt1 address values l four ne =
    let m = encode_dt1 l.device_id (address ++ values) none in
    on_receive-correlate m l ne
    ∙ rw (correlate, parse_data_reply-encode_dt1 l.device_id address values four) refl

identity-no_data :
    (dev : ℕ) (m : List ℕ) (r : IdentityReply)
    → parse_identity_reply m ≡ some r
    → parse_data_reply dev m ≡ none
unfolding parse_identity_reply parse_data_reply is_identity
identity-no_data dev [] r h = ground arith
identity-no_data dev (a ∷ []) r h = ground arith
identity-no_data dev (a ∷ b ∷ m) r h = ground arith

-- An identity reply sets the link's device id, and is reported, while the id is still the broadcast id; later ones
-- change nothing.
on_receive-identity :
    (message : List ℕ) (reply : IdentityReply) (l : DeviceLink)
    → parse_identity_reply message ≡ some reply
    → on_receive message l ≡ (
        if l.device_id == device_id_bcast
        then record l { device_id = reply.device_id; identities = l.identities ++ reply ∷ [] }
        else l)
unfolding on_receive negotiate_identity correlate
on_receive-identity m r l h = ground (arith, identity-no_data l.device_id m r h)
