-- ===== src/Session/Handshake.antt =====
-- pygt1000/editor_session.py: when the device counts as up.
use pygt.Base.{
  ℕ, ◌≡◌, ◌≢◌, sym, ◌∙◌, true, not, ◌&&◌, Bool-cases, inl, inr, Option, none, some, List, [], ◌∷◌,
  ◌++◌, ◌==◌, nat_eq, list_eq, arith,
}
use pygt.Constants.{
  device_id_bcast, identity_request_msg, editor_mode_address_set2, editor_reply2,
  editor_mode_address_fetch3, editor_reply3, editor_mode_addess_value2, editor_mode_address_len3,
}
use pygt.Codec.{encode_dt1, encode_rq1}
use pygt.Link.{DeviceLink, send, receive, set_and_await, request, exchange}
use pygt.Link.Receive.{last_reply}
use pygt.Link.Exchange.{first_answer, exchange-first_answer, exchange-keeps}
use pygt.Session.{
  EditorSession, Arrivals, Attempt, request_identity, answers, acknowledge, open_editor_mode,
  open_session, close, reopen,
}

-- With at least one round, the identity request returns True exactly if the device id at its end is not the broadcast id.
request_identity-device_id :
    (batch : List (List ℕ)) (rounds : List (List (List ℕ))) (l : DeviceLink)
    → (request_identity (batch ∷ rounds) l).0
      ≡ not ((request_identity (batch ∷ rounds) l).1.device_id == device_id_bcast)
unfolding request_identity
request_identity-device_id batch [] l = ground arith
request_identity-device_id batch (next ∷ rounds) l =
    ground
      (arith, request_identity-device_id next rounds (receive batch (send identity_request_msg l)))

request_identity-own :
    (rounds : List (List (List ℕ))) (l : DeviceLink)
    → (request_identity rounds l).0 ≡ true
    → (request_identity rounds l).1.device_id ≢ device_id_bcast
unfolding request_identity
request_identity-own [] l h = absurd cc
request_identity-own (batch ∷ rounds) l h =
    let e = request_identity-device_id batch rounds l in λ same. ground (arith, e, same, h)

-- What an exchange at `address` is answered, from the frames that arrive.
pub answer_to : ℕ → List ℕ → Arrivals → Option (List ℕ)
answer_to dev address a =
    first_answer dev address (last_reply dev address none a.immediate) a.batches

acknowledge-answers :
    (a : Attempt) (l : DeviceLink)
    → l.device_id ≢ device_id_bcast
    → (acknowledge a l).0
      ≡ some (
          answers (answer_to l.device_id editor_mode_address_set2 a.at_set) editor_reply2
          && answers (answer_to l.device_id editor_mode_address_fetch3 a.at_fetch) editor_reply3)
unfolding acknowledge set_and_await request answer_to
acknowledge-answers a l ne =
    let m2 = encode_dt1 l.device_id (editor_mode_address_set2 ++ editor_mode_addess_value2) none in
    let l2 = (exchange a.at_set.immediate a.at_set.batches m2 editor_mode_address_set2 l).1 in
    let m3 = encode_rq1 l2.device_id editor_mode_address_fetch3 editor_mode_address_len3 none in
    let e2 =
      exchange-first_answer a.at_set.immediate a.at_set.batches m2 editor_mode_address_set2 l ne in
    let (id, _, _) =
      exchange-keeps a.at_set.immediate a.at_set.batches m2 editor_mode_address_set2 l ne in
    let ne2 : l2.device_id ≢ device_id_bcast = λ e. ne (sym id ∙ e) in
    let e3 =
      exchange-first_answer a.at_fetch.immediate a.at_fetch.batches m3 editor_mode_address_fetch3 l2
        ne2 in
    ground (arith, e2, e3, id)

-- Opening never raises. It succeeds exactly when the transport opens, an identity round leaves a device id of its own, and
-- both the editor-mode set and then the liveness read are answered by the expected bytes: what counts for each is the last
-- answer in the first batch of frames with one, among those that come while it is sent and those of each sleep
-- before the last poll.
pub open_session-answers :
    (a : Attempt) (s : EditorSession)
    → let (identified, l) = request_identity a.rounds s.link in
      (open_session a s).0
      ≡ some (
          a.opens
          && (identified
              && (answers (answer_to l.device_id editor_mode_address_set2 a.at_set) editor_reply2
                  && answers
                      (answer_to l.device_id editor_mode_address_fetch3 a.at_fetch)
                      editor_reply3)))
unfolding open_session open_editor_mode
open_session-answers a s = elim (Bool-cases (request_identity a.rounds s.link).0) [
  | inr h ↦ ground arith
  | inl h ↦ ground (
    arith,
    acknowledge-answers a (request_identity a.rounds s.link).1
        (request_identity-own a.rounds s.link h),
  )
]

-- After a reopen the transport counts as open exactly if it opened this time.
reopen-opened : (a : Attempt) (s : EditorSession) → (reopen a s).1.opened ≡ a.opens
unfolding reopen close open_session
reopen-opened a s = ground arith
