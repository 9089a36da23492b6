-- ===== src/Session.antt =====
-- pygt1000/editor_session.py: the sequence that brings the device up. Whether the transport opens, and the frames that arrive
-- in each wait, are passed in.
pub mod Handshake
use pygt.Base.{
  ℕ, Bool, true, false, not, Option, none, some, List, [], ◌∷◌, ◌==◌, nat_eq, list_eq,
  if◌then◌else◌,
}
use pygt.Constants.{
  device_id_bcast, identity_request_msg, editor_mode_address_set2, editor_mode_addess_value2,
  editor_reply2, editor_mode_address_fetch3, editor_mode_address_len3, editor_reply3,
}
use pygt.Link.{DeviceLink, send, receive, set_and_await, request}

pub record EditorSession : Type 0 where
  pub opened : Bool
  pub link : DeviceLink

-- The frames that arrive while a message is sent, and then in each sleep.
pub record Arrivals : Type 0 where
  pub immediate : List (List ℕ)
  pub batches : List (List (List ℕ))

-- One attempt of `open`: the transport's answer, and what arrives at each stage; one batch for each identity request.
pub record Attempt : Type 0 where
  pub opens : Bool
  pub rounds : List (List (List ℕ))
  pub at_set : Arrivals
  pub at_fetch : Arrivals

unfoldable pub request_identity : List (List (List ℕ)) → DeviceLink → Bool × DeviceLink
unfolding send receive
request_identity [] l = (false, l)
request_identity (batch ∷ rounds) l =
    let l1 = receive batch (send identity_request_msg l) in
    let rest = request_identity rounds l1 in
    if not (l1.device_id == device_id_bcast) then (true, l1) else rest

-- `data == reply`, for a reply that may be None.
unfoldable pub answers : Option (List ℕ) → List ℕ → Bool
answers none reply = false
answers (some bytes) reply = bytes == reply

-- The two exchanges of the handshake. `none` is a KeyError.
unfoldable pub acknowledge : Attempt → DeviceLink → Option Bool × DeviceLink
unfolding answers set_and_await request
acknowledge a l =
    let (answer2, l2) =
      set_and_await a.at_set.immediate a.at_set.batches editor_mode_address_set2
        editor_mode_addess_value2 l in
    let (answer3, l3) =
      request a.at_fetch.immediate a.at_fetch.batches editor_mode_address_fetch3
        editor_mode_address_len3 none l2 in
    elim answer2 [
      | none ↦ (none, l2)
      | some d2 ↦
          if answers d2 editor_reply2
          then elim answer3 [ none ↦ (none, l3) | some d3 ↦ (some (answers d3 editor_reply3), l3) ]
          else (some false, l2)
    ]

unfoldable pub open_editor_mode : Attempt → DeviceLink → Option Bool × DeviceLink
unfolding request_identity acknowledge
open_editor_mode a l =
    let (identified, l1) = request_identity a.rounds l in
    if identified then acknowledge a l1 else (some false, l1)

unfoldable pub open_session : Attempt → EditorSession → Option Bool × EditorSession
unfolding open_editor_mode
open_session a s =
    let (up, l) = open_editor_mode a s.link in
    if a.opens then (up, record { opened = true; link = l }) else (some false, s)

unfoldable pub close : EditorSession → EditorSession
close s = record s { opened = false }

unfoldable pub reopen : Attempt → EditorSession → Option Bool × EditorSession
unfolding close open_session
reopen a s = open_session a (close s)
