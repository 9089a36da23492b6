-- ===== src/Facade/Callbacks.antt =====
-- pygt1000/device_link.py, the registered callbacks, and pygt1000/gt1000.py, which registers two of them: what the link
-- does with a message of the wire. A callback that raises ends the handling of the message, and that is all.
use pygt.Base.{
  ℕ, Bool, true, false, Option, none, some, List, [], ◌∷◌, nat_eq, list_eq, ◌==◌, if◌then◌else◌, ok,
  Act, pure, update, ◌>>>◌,
}
use pygt.Base.Dict.{has, put}
use pygt.Constants.{device_id_bcast}
use pygt.Codec.{IdentityReply, parse_identity_reply, parse_data_reply}
use pygt.Facade.{Gt1000, apply_identity, process_data_from_unit}

pub record Callbacks : Type 0 where
  pub unsolicited : Option (List ℕ → List ℕ → Act {0, 0} Gt1000 Unit)
  pub identity : Option (IdentityReply → Act {0, 0} Gt1000 Unit)

-- None is registered.
unfoldable pub no_callbacks : Callbacks
no_callbacks = record { unsolicited = none; identity = none }

unfoldable pub on_unsolicited : (List ℕ → List ℕ → Act {0, 0} Gt1000 Unit) → Callbacks → Callbacks
on_unsolicited callback k = record k { unsolicited = some callback }

unfoldable pub on_identity : (IdentityReply → Act {0, 0} Gt1000 Unit) → Callbacks → Callbacks
on_identity callback k = record k { identity = some callback }

-- Those that the constructor of GT1000 registers.
unfoldable pub wired : Callbacks
unfolding on_unsolicited on_identity no_callbacks
wired =
    on_identity (λ reply. update (apply_identity reply))
      (on_unsolicited process_data_from_unit no_callbacks)

unfoldable pub call_unsolicited :
    Option (List ℕ → List ℕ → Act {0, 0} Gt1000 Unit) → List ℕ → List ℕ → Act {0, 0} Gt1000 Unit
call_unsolicited none offset values = pure tt
call_unsolicited (some callback) offset values = callback offset values

unfoldable pub call_identity :
    Option (IdentityReply → Act {0, 0} Gt1000 Unit) → IdentityReply → Act {0, 0} Gt1000 Unit
call_identity none reply = pure tt
call_identity (some callback) reply = callback reply

-- `_negotiate_identity`
unfoldable pub negotiate : Callbacks → List ℕ → Act {0, 0} Gt1000 Bool
unfolding call_identity
negotiate k message gt = elim (parse_identity_reply message) [
  | none ↦ (ok false, gt)
  | some reply ↦
      (call_identity k.identity reply >>> λ _. pure true)
        (record gt { link = record gt.link { device_id = reply.device_id } })
]

-- `_on_receive` after the negotiation.
unfoldable pub hand_on : Callbacks → List ℕ → Act {0, 0} Gt1000 Unit
unfolding call_unsolicited
hand_on k message gt = elim (parse_data_reply gt.link.device_id message) [
  | none ↦ (ok tt, gt)
  | some (offset, values) ↦
      if has gt.link.pending offset
      then (
        ok tt,
        record gt { link = record gt.link { pending = put gt.link.pending offset (some values) } },
      )
      else call_unsolicited k.unsolicited offset values gt
]

-- `_on_receive`, which swallows what is raised.
unfoldable pub receive_message : Callbacks → List ℕ → Gt1000 → Gt1000
unfolding negotiate hand_on
receive_message k message gt =
    if gt.link.device_id == device_id_bcast
    then ((negotiate k message >>> λ negotiated. if negotiated then pure tt else hand_on k message)
        gt).1
    else (hand_on k message gt).1

unfoldable pub receive_messages : Callbacks → List (List ℕ) → Gt1000 → Gt1000
unfolding receive_message
receive_messages k [] gt = gt
receive_messages k (message ∷ messages) gt =
    receive_messages k messages (receive_message k message gt)
