-- ===== src/Tests/Talks.antt =====
-- Requests and what arrives meanwhile; the handshake.
use pygt.Base.{
  ℕ, ◌≡◌, ◌≢◌, refl, none, some, text, true, false, ◌&&◌, List, [], ◌∷◌, ◌++◌, arith, list_eq,
  list_beq, nat_eq,
}
use pygt.Base.Dict.{has}
use pygt.Constants.{
  device_id_bcast, editor_mode_address_set2, editor_mode_address_fetch3, editor_reply2,
  editor_reply3,
}
use pygt.Codec.{IdentityReply, encode_dt1, encode_rq1, parse_data_reply, calculate_checksum}
use pygt.Link.{DeviceLink, new_link, receive, exchange}
use pygt.Link.Receive.{reply_at, last_reply, unexpected, receive-unsolicited}
use pygt.Link.Exchange.{first_answer, exchange-first_answer}
use pygt.Session.{EditorSession, Attempt, request_identity, answers, open_session}
use pygt.Session.Handshake.{answer_to, open_session-answers}

abbrev sw : List ℕ
sw = 16 ∷ 0 ∷ 18 ∷ 0 ∷ []

abbrev tone : List ℕ
tone = 16 ∷ 0 ∷ 18 ∷ 5 ∷ []

abbrev asked : List ℕ
asked = encode_rq1 0x10 sw (0 ∷ 0 ∷ 0 ∷ 1 ∷ []) none

-- A frame of the device at `address`.
abbrev from_device : List ℕ → List ℕ → List ℕ
from_device address values = encode_dt1 0x10 (address ++ values) none

abbrev two_batches : List (List (List ℕ))
two_batches = (from_device tone (9 ∷ []) ∷ []) ∷ (from_device sw (1 ∷ []) ∷ []) ∷ [] ∷ []

not_bcast : 0x10 ≢ device_id_bcast
not_bcast e = absurd (omega (arith, e))

exchange-first_answer_example :
    (exchange [] two_batches asked sw (new_link 0x10)).0
    ≡ some (first_answer 0x10 sw (last_reply 0x10 sw none []) two_batches)
unfolding new_link
exchange-first_answer_example =
    exchange-first_answer [] two_batches asked sw (new_link 0x10) not_bcast

first_answer-two_batches :
    first_answer 0x10 sw (last_reply 0x10 sw none []) two_batches ≡ some (1 ∷ [])
unfolding first_answer last_reply reply_at parse_data_reply list_beq encode_dt1 calculate_checksum
first_answer-two_batches = refl

abbrev waiting_link : DeviceLink
waiting_link = record {
  device_id = 0x10;
  pending = (sw, none) ∷ [];
  sent = [];
  unsolicited = [];
  identities = [];
}

receive-unsolicited_example :
    (receive (from_device tone (9 ∷ []) ∷ from_device sw (1 ∷ []) ∷ []) waiting_link).unsolicited
    ≡ unexpected 0x10
        (has waiting_link.pending)
        (from_device tone (9 ∷ []) ∷ from_device sw (1 ∷ []) ∷ [])
receive-unsolicited_example =
    receive-unsolicited (from_device tone (9 ∷ []) ∷ from_device sw (1 ∷ []) ∷ []) waiting_link
      not_bcast

abbrev identity_frame : List ℕ
identity_frame =
    0xF0 ∷ 0x7E ∷ 0x10 ∷ 0x06 ∷ 0x02 ∷ 0x41 ∷ 0x4F ∷ 0x03 ∷ 0 ∷ 0 ∷ 0x02 ∷ 0 ∷ 0 ∷ 0 ∷ 0xF7 ∷ []

abbrev core_reply : IdentityReply
core_reply = record { device_id = 0x10; model = some (text "GT-1000CORE") }

abbrev fresh_link : DeviceLink
fresh_link = record {
  device_id = device_id_bcast;
  pending = [];
  sent = [];
  unsolicited = [];
  identities = [];
}

abbrev good_attempt : Attempt
good_attempt = record {
  opens = true;
  rounds = (identity_frame ∷ []) ∷ [];
  at_set = record {
    immediate = [];
    batches = (from_device editor_mode_address_set2 editor_reply2 ∷ []) ∷ [] ∷ [];
  };
  at_fetch = record {
    immediate = [];
    batches = (from_device editor_mode_address_fetch3 editor_reply3 ∷ []) ∷ [] ∷ [];
  };
}

abbrev closed_session : EditorSession
closed_session = record { opened = false; link = fresh_link }

open_session-answers_example :
    let (identified, l) = request_identity good_attempt.rounds closed_session.link in
    (open_session good_attempt closed_session).0
    ≡ some (
        good_attempt.opens
        && (identified
            && (answers
                  (answer_to l.device_id editor_mode_address_set2 good_attempt.at_set)
                  editor_reply2
                && answers
                    (answer_to l.device_id editor_mode_address_fetch3 good_attempt.at_fetch)
                    editor_reply3)))
open_session-answers_example = open_session-answers good_attempt closed_session
