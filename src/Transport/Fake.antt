-- ===== src/Transport/Fake.antt =====
-- pygt1000/transport.py, FakeTransport: what is sent is recorded, and an answer may be delivered at once. `C` is the state
-- of whoever has registered the callback.
use pygt.Base.{ℕ, Bool, true, false, Option, none, some, List, [], ◌∷◌, ◌++◌}

pub record FakeTransport {ℓ} (C : Type ℓ) : Type ℓ where
  pub sent : List (List ℕ)
  pub opened : Bool
  pub on_receive : Option (List ℕ → C → C)
  pub auto_reply : Option (List ℕ → Option (List ℕ))

-- The answer to a message that is sent.
unfoldable pub reply_to : Option (List ℕ → Option (List ℕ)) → List ℕ → Option (List ℕ)
reply_to none message = none
reply_to (some auto_reply) message = auto_reply message

module _ {ℓ} {C : Type ℓ} where
  unfoldable pub new_fake : Option (List ℕ → Option (List ℕ)) → FakeTransport C
  new_fake auto_reply = record {
    sent = [];
    opened = false;
    on_receive = none;
    auto_reply = auto_reply;
  }

  unfoldable pub set_on_receive : (List ℕ → C → C) → FakeTransport C → FakeTransport C
  set_on_receive callback t = record t { on_receive = some callback }

  -- A message handed to the callback, if there is one.
  unfoldable pub hand_over : Option (List ℕ → C → C) → List ℕ → C → C
  hand_over none message c = c
  hand_over (some callback) message c = callback message c

  unfoldable pub receive : List ℕ → FakeTransport C × C → FakeTransport C × C
  unfolding hand_over
  receive message (t, c) = (t, hand_over t.on_receive message c)

  unfoldable pub deliver : Option (List ℕ) → FakeTransport C × C → FakeTransport C × C
  unfolding receive
  deliver none tc = tc
  deliver (some reply) tc = receive reply tc

  unfoldable pub send : List ℕ → FakeTransport C × C → FakeTransport C × C
  unfolding deliver reply_to
  send message (t, c) =
      deliver (reply_to t.auto_reply message) (record t { sent = t.sent ++ message ∷ [] }, c)

  unfoldable pub open_fake : FakeTransport C → Bool × FakeTransport C
  open_fake t = (true, record t { opened = true })

  unfoldable pub close_fake : FakeTransport C → FakeTransport C
  close_fake t = record t { opened = false }
