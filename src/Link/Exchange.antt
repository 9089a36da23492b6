-- ===== src/Link/Exchange.antt =====
-- pygt1000/device_link.py, `_exchange` and `_wait`: the answer of a request, from the frames that arrive meanwhile.
use pygt.Base.{
  ℕ, ◌≡◌, ◌≢◌, refl, sym, ◌∙◌, false, Option, none, some, List, [], ◌∷◌, ◌++◌, ◌==◌, list_eq,
  list_beq_iff, if◌then◌else◌, arith,
}
use pygt.Base.Dict.{Dict, get, has, put, pop, get-put, get-pop, has-get}
use pygt.Constants.{device_id_bcast}
use pygt.Link.{DeviceLink, send, receive, poll, wait, exchange}
use pygt.Link.Receive.{last_reply, receive-keeps, receive-get}

-- The first answer there is: `so_far`, or the last frame of the first batch that has one. The last batch comes after the
-- last poll.
unfoldable pub first_answer : ℕ → List ℕ → Option (List ℕ) → List (List (List ℕ)) → Option (List ℕ)
unfolding last_reply
first_answer dev key so_far [] = none
first_answer dev key so_far (batch ∷ batches) =
    let later = first_answer dev key (last_reply dev key none batch) batches in
    elim so_far [ some values ↦ some values | none ↦ later ]

wait-first_answer :
    (batches : List (List (List ℕ))) (key : List ℕ) (l : DeviceLink) (so_far : Option (List ℕ))
    → l.device_id ≢ device_id_bcast
    → get l.pending key ≡ some so_far
    → (wait batches key l).0 ≡ some (first_answer l.device_id key so_far batches)
unfolding wait first_answer poll
wait-first_answer [] key l so_far ne h = refl
wait-first_answer (batch ∷ batches) key l (some values) ne h = ground arith
wait-first_answer (batch ∷ batches) key l none ne h =
    let (id, sent, keys) = receive-keeps batch l ne in
    let ne' : (receive batch l).device_id ≢ device_id_bcast = λ e. ne (sym id ∙ e) in
    let ih =
      wait-first_answer batches key (receive batch l) (last_reply l.device_id key none batch) ne'
        (receive-get batch l key none ne h) in
    ground (arith, ih, id)

wait-keeps :
    (batches : List (List (List ℕ))) (key : List ℕ) (l : DeviceLink)
    → l.device_id ≢ device_id_bcast
    → ((wait batches key l).1.device_id ≡ l.device_id)
      × ((wait batches key l).1.sent ≡ l.sent)
      × ((k : List ℕ) → has (wait batches key l).1.pending k ≡ has l.pending k)
unfolding wait poll
wait-keeps [] key l ne = (refl, refl, λ k. refl)
wait-keeps (batch ∷ batches) key l ne =
    let (id, sent, keys) = receive-keeps batch l ne in
    let ne' : (receive batch l).device_id ≢ device_id_bcast = λ e. ne (sym id ∙ e) in
    let (id', sent', keys') = wait-keeps batches key (receive batch l) ne' in
    (ground (arith, id, id'), ground (arith, sent, sent'), λ k. ground (arith, keys k, keys' k))

has-pop-put :
    (d d' : Dict (List ℕ) (Option (List ℕ))) (a k : List ℕ) (v : Option (List ℕ))
    → has d k ≡ has (put d' a v) k
    → has (pop d a) k ≡ (if a == k then false else has d' k)
has-pop-put d d' a k v h = ground (
  arith,
  has-get (pop d a) k,
  get-pop d a k,
  has-get d k,
  has-get (put d' a v) k,
  get-put d' a k v,
  has-get d' k,
)

module _ (immediate : List (List ℕ)) (batches : List (List (List ℕ))) (message address : List ℕ)
    (l : DeviceLink) (ne : l.device_id ≢ device_id_bcast) where
  -- The link when the request is on the wire.
  abbrev posted : DeviceLink
  posted = send message (record l { pending = put l.pending address none })

  posted-get : get posted.pending address ≡ some none
  unfolding send
  posted-get = ground (arith, get-put l.pending address address none, list_beq_iff address address)

  abbrev waited : Option (Option (List ℕ)) × DeviceLink
  waited = wait batches address (receive immediate posted)

  still : (receive immediate posted).device_id ≢ device_id_bcast
  unfolding send
  still e = ne (sym (receive-keeps immediate posted ne).0 ∙ e)

  -- While a device id is in place a request never raises. The frames arrive in batches: those that come while it is sent, and
  -- those of each sleep before its last poll. It returns what the last answer to its address in the first batch with one
  -- holds, or None if no batch has one.
  pub exchange-first_answer :
      (exchange immediate batches message address l).0
      ≡ some
          (first_answer l.device_id address (last_reply l.device_id address none immediate) batches)
  unfolding exchange send
  exchange-first_answer =
      let (id, sent, keys) = receive-keeps immediate posted ne in
      let got = receive-get immediate posted address none ne posted-get in
      let answer =
        wait-first_answer batches address (receive immediate posted)
          (last_reply l.device_id address none immediate) still got in
      ground (arith, answer, id)

  exchange-ends :
      (exchange immediate batches message address l).1
      ≡ record waited.1 { pending = pop waited.1.pending address }
  unfolding exchange
  exchange-ends = ground (arith, exchange-first_answer)

  waited-has : (k : List ℕ) → has waited.1.pending k ≡ has (put l.pending address none) k
  unfolding send
  waited-has k =
      (wait-keeps batches address (receive immediate posted) still).2 k
      ∙ (receive-keeps immediate posted ne).2 k

  -- While a device id is in place, a request leaves one message more sent, the same device id, and as the addresses waited
  -- for those of before, less the request's own.
  pub exchange-keeps :
      ((exchange immediate batches message address l).1.device_id ≡ l.device_id)
      × ((exchange immediate batches message address l).1.sent ≡ l.sent ++ message ∷ [])
      × ((k : List ℕ)
          → has (exchange immediate batches message address l).1.pending k
            ≡ (if address == k then false else has l.pending k))
  unfolding send
  exchange-keeps =
      let (id, sent, _) = receive-keeps immediate posted ne in
      let (id', sent', _) = wait-keeps batches address (receive immediate posted) still in
      rw exchange-ends (
        id' ∙ id,
        sent' ∙ sent,
        λ k. has-pop-put waited.1.pending l.pending address k none (waited-has k),
      )
