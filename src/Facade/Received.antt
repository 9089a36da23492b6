-- ===== src/Facade/Received.antt =====
-- What GT1000 makes of the messages of the wire, whatever they hold.
use pygt.Base.{
  Result-cases, Bool-cases, Option-cases, inl, inr, ℕ, ◌≡◌, refl, sym, ap, ◌∙◌, subst, true, none,
  some, List, [], ◌∷◌, nat_eq, list_eq, ◌==◌, ok, arith, proceed,
}
use pygt.Base.Dict.{has}
use pygt.Constants.{device_id_bcast, program_change_offset}
use pygt.Codec.{IdentityReply, parse_identity_reply, parse_data_reply}
use pygt.AddressMap.{DecodedValue}
use pygt.AddressMap.Decode.{Raw, decode}
use pygt.PatchState.{ApplyResult, apply}
use pygt.PatchState.Names.{NamesAgree}
use pygt.Link.{DeviceLink, on_receive, negotiate_identity, correlate, receive}
use pygt.Facade.{Gt1000, apply_state, schedule, apply_identity, process_data_from_unit}
use pygt.Facade.Inbound.{process_data_from_unit-NamesAgree}
use pygt.Facade.Callbacks.{
  wired, hand_on, negotiate, call_unsolicited, call_identity, receive_message, receive_messages,
}

schedule-link :
    (d : DecodedValue) (r : ApplyResult) (gt : Gt1000) → (schedule d r gt).1.link ≡ gt.link
unfolding schedule
schedule-link d r gt = ground arith

apply_then-link :
    (d : DecodedValue) (gt : Gt1000)
    → (proceed (apply_state d gt) (λ r. schedule d r)).1.link ≡ gt.link
apply_then-link d gt = elim (Result-cases (apply d gt.clock gt.state)) [
  | inl ((r, s), e) ↦
      unfold apply_state in ground (arith, schedule-link d r (record gt { state = s }))
  | inr (e, h) ↦ unfold apply_state in ground arith
]

-- The callbacks leave the link alone.
process_data_from_unit-link :
    (offset values : List ℕ) (gt : Gt1000)
    → (process_data_from_unit offset values gt).1.link ≡ gt.link
unfolding process_data_from_unit
process_data_from_unit-link offset values gt = elim (Bool-cases (offset == program_change_offset)) [
  | inl h ↦ ground arith
  | inr h ↦ elim (Result-cases (decode gt.address_map offset (Raw.reply values))) [
    | inr (e, h') ↦ ground arith
    | inl (none, h') ↦ ground arith
    | inl (some d, h') ↦ ground (arith, apply_then-link d gt)
  ]
]

apply_identity-link :
    (reply : IdentityReply) (gt : Gt1000) → (apply_identity reply gt).link ≡ gt.link
unfolding apply_identity
apply_identity-link reply gt = ground arith

apply_identity-state :
    (reply : IdentityReply) (gt : Gt1000) → (apply_identity reply gt).state ≡ gt.state
unfolding apply_identity
apply_identity-state reply gt = ground arith

-- A link without what it has reported, which decides what it sends, waits for and matches.
unfoldable pub unreported : DeviceLink → DeviceLink
unreported l = record l { unsolicited = []; identities = [] }

correlate-unreported :
    (m : List ℕ) (l : DeviceLink)
    → unreported (correlate m l) ≡ unreported (correlate m (unreported l))
unfolding correlate unreported
correlate-unreported m l = ground arith

on_receive-unreported :
    (m : List ℕ) (l : DeviceLink)
    → unreported (on_receive m l) ≡ unreported (on_receive m (unreported l))
unfolding on_receive negotiate_identity correlate unreported
on_receive-unreported m l = ground arith

receive-unreported :
    (ms : List (List ℕ)) (l l' : DeviceLink)
    → unreported l ≡ unreported l'
    → unreported (receive ms l) ≡ unreported (receive ms l')
unfolding receive
receive-unreported [] l l' e = e
receive-unreported (m ∷ ms) l l' e = receive-unreported ms (on_receive m l) (on_receive m l') (
    on_receive-unreported m l
    ∙ ap (λ k. unreported (on_receive m k)) e
    ∙ sym (on_receive-unreported m l'))

hand_on-unreported :
    (m : List ℕ) (gt : Gt1000)
    → unreported (hand_on wired m gt).1.link ≡ unreported (correlate m gt.link)
unfolding hand_on wired call_unsolicited correlate unreported
hand_on-unreported m gt = elim (Option-cases (parse_data_reply gt.link.device_id m)) [
  | inl h ↦ ground arith
  | inr ((offset, values), h) ↦ ground (arith, process_data_from_unit-link offset values gt)
]

-- The state after a reply that the id is taken from.
abbrev identified : IdentityReply → Gt1000 → Gt1000
identified reply gt =
    apply_identity reply (record gt { link = record gt.link { device_id = reply.device_id } })

negotiate-identity :
    (m : List ℕ) (gt : Gt1000) (reply : IdentityReply)
    → parse_identity_reply m ≡ some reply
    → negotiate wired m gt ≡ (ok true, identified reply gt)
unfolding negotiate wired call_identity
negotiate-identity m gt reply n = rw (n, negotiate) refl

receive_message-identity :
    (m : List ℕ) (gt : Gt1000) (reply : IdentityReply)
    → parse_identity_reply m ≡ some reply
    → (gt.link.device_id == device_id_bcast) ≡ true
    → receive_message wired m gt ≡ identified reply gt
unfolding receive_message
receive_message-identity m gt reply n h = rw (h, negotiate-identity m gt reply n) refl

receive_message-unreported :
    (m : List ℕ) (gt : Gt1000)
    → unreported (receive_message wired m gt).link ≡ unreported (on_receive m gt.link)
unfolding on_receive negotiate_identity
receive_message-unreported m gt = elim (Option-cases (parse_identity_reply m)) [
  | inl n ↦ unfold receive_message negotiate in ground (arith, hand_on-unreported m gt)
  | inr (reply, n) ↦ elim (Bool-cases (gt.link.device_id == device_id_bcast)) [
    | inr h ↦ unfold receive_message in ground (arith, hand_on-unreported m gt)
    | inl h ↦
        ap (λ g. unreported g.link) (receive_message-identity m gt reply n h)
        ∙ ap unreported (
            apply_identity-link reply
              (record gt { link = record gt.link { device_id = reply.device_id } }))
        ∙ (unfold unreported in ground arith)
  ]
]

-- Whatever messages arrive, the link of GT1000 comes to the same device id, the same answers and the same messages sent
-- as the link that only records what its callbacks are given.
pub receive_messages-receive :
    (ms : List (List ℕ)) (gt : Gt1000)
    → unreported (receive_messages wired ms gt).link ≡ unreported (receive ms gt.link)
unfolding receive_messages receive
receive_messages-receive [] gt = refl
receive_messages-receive (m ∷ ms) gt =
    receive_messages-receive ms (receive_message wired m gt)
    ∙ receive-unreported ms (receive_message wired m gt).link (on_receive m gt.link)
        (receive_message-unreported m gt)

hand_on-NamesAgree :
    (m : List ℕ) (gt : Gt1000) → NamesAgree gt.state → NamesAgree (hand_on wired m gt).1.state
unfolding hand_on wired call_unsolicited
hand_on-NamesAgree m gt a = elim (Option-cases (parse_data_reply gt.link.device_id m)) [
  | inl h ↦
      let same : gt.state ≡ (hand_on wired m gt).1.state = ground arith in subst NamesAgree same a
  | inr ((offset, values), h) ↦ elim (Bool-cases (has gt.link.pending offset)) [
    | inl waited ↦
        let same : gt.state ≡ (hand_on wired m gt).1.state = ground arith in subst NamesAgree same a
    | inr free ↦
        let same : (process_data_from_unit offset values gt).1.state
            ≡ (hand_on wired m gt).1.state =
          ground arith in
        subst NamesAgree same (process_data_from_unit-NamesAgree offset values gt a)
  ]
]

receive_message-NamesAgree :
    (m : List ℕ) (gt : Gt1000) → NamesAgree gt.state → NamesAgree (receive_message wired m gt).state
receive_message-NamesAgree m gt a = elim (Option-cases (parse_identity_reply m)) [
  | inl n ↦
      let same : (hand_on wired m gt).1.state ≡ (receive_message wired m gt).state =
        (unfold receive_message negotiate in ground arith) in
      subst NamesAgree same (hand_on-NamesAgree m gt a)
  | inr (reply, n) ↦ elim (Bool-cases (gt.link.device_id == device_id_bcast)) [
    | inr h ↦
        let same : (hand_on wired m gt).1.state ≡ (receive_message wired m gt).state =
          (unfold receive_message in ground arith) in
        subst NamesAgree same (hand_on-NamesAgree m gt a)
    | inl h ↦
        let same =
          ap (λ g. g.state) (receive_message-identity m gt reply n h)
          ∙ apply_identity-state reply
              (record gt { link = record gt.link { device_id = reply.device_id } }) in
        subst NamesAgree (sym same) a
  ]
]

-- Whatever messages arrive, readable or not, the recorded effect names stay those of the fx blocks.
pub receive_messages-NamesAgree :
    (ms : List (List ℕ)) (gt : Gt1000)
    → NamesAgree gt.state
    → NamesAgree (receive_messages wired ms gt).state
unfolding receive_messages
receive_messages-NamesAgree [] gt a = a
receive_messages-NamesAgree (m ∷ ms) gt a =
    receive_messages-NamesAgree ms (receive_message wired m gt) (receive_message-NamesAgree m gt a)
