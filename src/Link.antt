-- ===== src/Link.antt =====
-- pygt1000/device_link.py: requests, and the replies that are matched to them. The transport is the list of the frames
-- sent; what arrives is passed in, as one batch of frames for each sleep of `_wait`.
pub mod Receive
pub mod Exchange
pub mod Race
use pygt.Base.{
  ℕ, zero, suc, Bool, true, false, Option, none, some, List, [], ◌∷◌, ◌++◌, ◌==◌, nat_eq, list_eq,
  if◌then◌else◌,
}
use pygt.Base.Dict.{Dict, get, has, put, pop}
use pygt.Constants.{device_id_bcast}
use pygt.Codec.{IdentityReply, encode_dt1, encode_rq1, parse_data_reply, parse_identity_reply}

-- The link's fields, with the calls of the transport and of the two callbacks, oldest first.
pub record DeviceLink : Type 0 where
  pub device_id : ℕ
  pub pending : Dict (List ℕ) (Option (List ℕ))
  pub sent : List (List ℕ)
  pub unsolicited : List (List ℕ × List ℕ)
  pub identities : List IdentityReply

unfoldable pub new_link : ℕ → DeviceLink
new_link device_id = record {
  device_id = device_id;
  pending = [];
  sent = [];
  unsolicited = [];
  identities = [];
}

unfoldable pub send : List ℕ → DeviceLink → DeviceLink
send message l = record l { sent = l.sent ++ message ∷ [] }

unfoldable pub set : List ℕ → DeviceLink → DeviceLink
unfolding send
set address_value l = send (encode_dt1 l.device_id address_value none) l

-- The answer, and the link after it.
unfoldable pub negotiate_identity : List ℕ → DeviceLink → Bool × DeviceLink
negotiate_identity message l = elim (parse_identity_reply message) [
  | none ↦ (false, l)
  | some reply ↦
      (true, record l { device_id = reply.device_id; identities = l.identities ++ reply ∷ [] })
]

-- `_on_receive` after the negotiation.
unfoldable pub correlate : List ℕ → DeviceLink → DeviceLink
correlate message l = elim (parse_data_reply l.device_id message) [
  | none ↦ l
  | some (offset, values) ↦
      if has l.pending offset
      then record l { pending = put l.pending offset (some values) }
      else record l { unsolicited = l.unsolicited ++ (offset, values) ∷ [] }
]

unfoldable pub on_receive : List ℕ → DeviceLink → DeviceLink
unfolding negotiate_identity correlate
on_receive message l =
    let (negotiated, l') = negotiate_identity message l in
    if l.device_id == device_id_bcast
    then (if negotiated then l' else correlate message l')
    else correlate message l

unfoldable pub receive : List (List ℕ) → DeviceLink → DeviceLink
unfolding on_receive
receive [] l = l
receive (message ∷ messages) l = receive messages (on_receive message l)

-- One round of `_wait`: `_pending[key]`, whose KeyError is `none`.
unfoldable pub poll : List ℕ → DeviceLink → Option (Option (List ℕ))
poll key l = get l.pending key

-- `_wait` for as many rounds as batches: each round reads, then sleeps while its batch arrives. `none` is a KeyError.
unfoldable pub wait :
    List (List (List ℕ)) → List ℕ → DeviceLink → Option (Option (List ℕ)) × DeviceLink
unfolding poll receive
wait [] key l = (some none, l)
wait (batch ∷ batches) key l =
    let later = wait batches key (receive batch l) in
    elim (poll key l) [
      | none ↦ (none, l)
      | some (some values) ↦ (some (some values), l)
      | some none ↦ later
    ]

-- The transport may call back while it sends: `immediate` are the frames that arrive before the first poll.
unfoldable pub exchange :
    List (List ℕ)
    → List (List (List ℕ))
    → List ℕ
    → List ℕ
    → DeviceLink
    → Option (Option (List ℕ)) × DeviceLink
unfolding send receive wait
exchange immediate batches message address l =
    let l1 = record l { pending = put l.pending address none } in
    let (answer, l2) = wait batches address (receive immediate (send message l1)) in
    elim answer [
      | none ↦ (none, l2)
      | some values ↦ (some values, record l2 { pending = pop l2.pending address })
    ]

unfoldable pub request :
    List (List ℕ)
    → List (List (List ℕ))
    → List ℕ
    → List ℕ
    → Option (List ℕ)
    → DeviceLink
    → Option (Option (List ℕ)) × DeviceLink
unfolding exchange
request immediate batches address len override_checksum l =
    exchange immediate batches (encode_rq1 l.device_id address len override_checksum) address l

unfoldable pub set_and_await :
    List (List ℕ)
    → List (List (List ℕ))
    → List ℕ
    → List ℕ
    → DeviceLink
    → Option (Option (List ℕ)) × DeviceLink
unfolding exchange
set_and_await immediate batches address values l =
    exchange immediate batches (encode_dt1 l.device_id (address ++ values) none) address l
