-- ===== src/Kafka/Termination.antt =====
-- The number of rounds of the loop of `MicroBatchKafkaConsumer.fetch`.
use data_ops_showcase.Prelude.{
  inr, inl, Result-cases, ℕ, zero, suc, ◌+◌, ◌-◌, ◌*◌, ◌<◌, ◌≡◌, ◌≢◌, arith, length, length-append,
  ok, err, >>=-eq-ok, Option, none, some, String,
}
use data_ops_showcase.Kafka.{
  grown, raised, poll_once, Codec, RawMessage, MicroBatchResult, Limits, out_of_fuel,
  append_message, absorb, fetch_loop, fetch, read_value, read_key, Consumer, present, empty_batch,
}

pub length-append_message :
    {V : Type 0} (msg : RawMessage) (v : V) (k : Option String) (r : MicroBatchResult V)
    → length (append_message msg v k r).messages ≡ length r.messages + 1
unfolding append_message
length-append_message msg v k r = length-append r.messages _

module _ {V : Type 0} (codec : Codec V) where
  -- A message that is absorbed is appended with some value and key.
  pub absorb-eq-ok :
      (msg : RawMessage) (r r' : MicroBatchResult V)
      → absorb codec msg r ≡ ok r'
      → (v : V) × (k : Option String) × (append_message msg v k r ≡ r')
  unfolding absorb
  absorb-eq-ok msg r r' h =
      let (v, hv, rest) = >>=-eq-ok (read_value codec (present msg.value)) _ h in
      let (k, hk, last) = >>=-eq-ok (read_key codec (present msg.key)) _ rest in (v, k, cc last)

  -- A round that grows the batch adds one message to it.
  pub length-poll_once :
      (m : Option RawMessage) (r r' : MicroBatchResult V)
      → poll_once codec m r ≡ grown r'
      → length r'.messages ≡ length r.messages + 1
  unfolding poll_once
  length-poll_once none r r' h = cc
  length-poll_once (some msg) r r' h = elim (Result-cases (absorb codec msg r)) [
    | inl (b, e) ↦
        let (v, k, same) = absorb-eq-ok msg r b e in
        ground (arith, e, same, length-append_message msg v k r)
    | inr (x, e) ↦ ground (arith, e)
  ]

  poll_once-ne-out_of_fuel :
      (m : Option RawMessage) (r : MicroBatchResult V) → poll_once codec m r ≢ raised out_of_fuel
  unfolding poll_once absorb
  poll_once-ne-out_of_fuel none r h = cc
  poll_once-ne-out_of_fuel (some msg) r h = ground arith

  module _ (limits : Limits) (poll : ℕ → Option RawMessage) where
    abbrev rounds_left : ℕ → MicroBatchResult V → ℕ
    rounds_left empty r =
        (limits.max_messages - length r.messages) * limits.max_empty_polls
        + (limits.max_empty_polls - empty)

    message_lowers_rounds :
        (empty : ℕ) (r r' : MicroBatchResult V)
        → length r.messages < limits.max_messages
        → empty < limits.max_empty_polls
        → length r'.messages ≡ length r.messages + 1
        → rounds_left 0 r' < rounds_left empty r
    message_lowers_rounds empty r r' h k e = grind arith

    -- Each round adds a message, or is one of at most `max_empty_polls` in a row that do not.
    fetch_loop-ends :
        (fuel n empty : ℕ) (r : MicroBatchResult V)
        → rounds_left empty r < fuel
        → fetch_loop codec limits poll fuel n empty r ≢ err out_of_fuel
    unfolding fetch_loop
    fetch_loop-ends zero n empty r h = elim h [ ]
    fetch_loop-ends (suc fuel) n empty r h = grind (
      arith,
      fetch_loop-ends fuel (n + 1),
      poll_once-ne-out_of_fuel,
      length-poll_once,
      message_lowers_rounds,
    )

    -- No sequence of answers makes `fetch` run on: it returns a batch or raises.
    pub fetch_ends : (c : Option Consumer) → fetch codec limits poll c ≢ err out_of_fuel
    unfolding fetch
    fetch_ends none = cc
    fetch_ends (some c) = fetch_loop-ends _ 0 0 empty_batch (grind arith)
