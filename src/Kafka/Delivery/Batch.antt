-- ===== src/Kafka/Delivery/Batch.antt =====
-- The loop of `fetch`, over the messages of such a broker.
use data_ops_showcase.Kafka.Delivery.{Sound, Delivers}
use data_ops_showcase.Kafka.Delivery.Message.{append_message-Tracks, Tracks}
use data_ops_showcase.Kafka.Termination.{absorb-eq-ok}
use data_ops_showcase.Prelude.{
  refl, length, subst, ◌∙◌, ltb, zero, suc, ok, inr, inl, Bool-cases, Option-cases, ℕ, ◌+◌, ◌≡◌,
  arith, Option, none, some, String, Bool, true, ◌&&◌,
}
use data_ops_showcase.Prelude.Dict.{nat_key}
use data_ops_showcase.Kafka.{
  empty_batch, raised, Consumer, fetch, PollOutcome, absorb, grown, quiet, poll_once, fetch_loop,
  Limits, Codec, RawMessage, MicroBatchResult,
}

to_sound :
    {V : Type 0} {topic : String} {log : ℕ → ℕ → Bool} {start now : ℕ → Option ℕ}
    {r : MicroBatchResult V}
    → Tracks topic log start now r
    → Sound topic log start r
to_sound t = record { started = t.started; covered = t.covered; distinct = t.distinct }

module _ {V : Type 0} (codec : Codec V) {topic : String} {log : ℕ → ℕ → Bool}
    {cursor : ℕ → ℕ → Option ℕ} {poll : ℕ → Option RawMessage} (d : Delivers topic log cursor poll)
    (start : ℕ → Option ℕ) where
  quiet_cursor :
      (n : ℕ) (m : Option RawMessage) (r : MicroBatchResult V) (p : ℕ)
      → poll n ≡ m
      → poll_once codec m r ≡ quiet
      → cursor (n + 1) p ≡ cursor n p
  unfolding poll_once
  quiet_cursor n none r p e h = d.rests n p e
  quiet_cursor n (some msg) r p e h = elim (Option-cases msg.error) [
    | inl fine ↦ ground (arith, fine)
    | inr (code, failed) ↦ d.rests_on_error n msg code p e failed
  ]

  quiet-Tracks :
      (n : ℕ) (r : MicroBatchResult V)
      → Tracks topic log start (cursor n) r
      → poll_once codec (poll n) r ≡ quiet
      → Tracks topic log start (cursor (n + 1)) r
  quiet-Tracks n r t h = record {
    at = λ p. quiet_cursor n (poll n) r p refl h ∙ t.at p;
    started = t.started;
    covered = t.covered;
    distinct = t.distinct;
  }

  -- A message that grows the batch has no error, and is appended.
  poll_once-grown :
      (m : Option RawMessage) (r r' : MicroBatchResult V)
      → poll_once codec m r ≡ grown r'
      → (msg : RawMessage) × (m ≡ some msg) × (msg.error ≡ none) × (absorb codec msg r ≡ ok r')
  unfolding poll_once
  poll_once-grown none r r' h = cc
  poll_once-grown (some msg) r r' h = elim (Option-cases msg.error) [
    | inl fine ↦ (msg, refl, fine, ground (arith, fine))
    | inr (code, failed) ↦ absurd (ground (arith, failed))
  ]

  grown-Tracks :
      (n : ℕ) (r r' : MicroBatchResult V)
      → Tracks topic log start (cursor n) r
      → poll_once codec (poll n) r ≡ grown r'
      → Tracks topic log start (cursor (n + 1)) r'
  grown-Tracks n r r' t h =
      let (msg, e, fine, took) = poll_once-grown (poll n) r r' h in
      let (v, k, same) = absorb-eq-ok codec msg r r' took in
      subst (Tracks topic log start (cursor (n + 1))) same
        (append_message-Tracks d start n msg v k r e fine t)

  module _ (limits : Limits) where
    fetch_loop-Sound :
        (fuel n empty : ℕ) (r batch : MicroBatchResult V)
        → Tracks topic log start (cursor n) r
        → fetch_loop codec limits poll fuel n empty r ≡ ok batch
        → Sound topic log start batch
    unfolding fetch_loop
    fetch_loop-Sound zero n empty r batch t h = cc
    fetch_loop-Sound (suc fuel) n empty r batch t h =
        elim (Bool-cases
          (ltb (length r.messages) limits.max_messages && ltb empty limits.max_empty_polls)) [
            | inl more ↦
                go (poll_once codec (poll n) r) refl more
                  (λ empty' r' t'. fetch_loop-Sound fuel (n + 1) empty' r' batch t')
            | inr stop ↦ subst (Sound topic log start) (ground (arith, stop)) (to_sound t)
          ]
      where
        go :
            (o : PollOutcome V)
            → poll_once codec (poll n) r ≡ o
            → (ltb (length r.messages) limits.max_messages && ltb empty limits.max_empty_polls)
              ≡ true
            → ((empty' : ℕ) (r' : MicroBatchResult V)
                → Tracks topic log start (cursor (n + 1)) r'
                → fetch_loop codec limits poll fuel (n + 1) empty' r' ≡ ok batch
                → Sound topic log start batch)
            → Sound topic log start batch
        go quiet e more ih = ih (empty + 1) r (quiet-Tracks n r t e) (ground (arith, e, more))
        go (grown r') e more ih = ih 0 r' (grown-Tracks n r r' t e) (ground (arith, e, more))
        go (raised x) e more ih = absurd (ground (arith, e, more))

    -- Where the broker hands over each partition in offset order: from where the run begins on each partition to the last offset that the batch has of it, every
    -- record of the partition is in the batch; and a partition that is not assigned has none.
    pub fetch-Sound :
        (c : Consumer) (batch : MicroBatchResult V)
        → ((p : ℕ) → cursor 0 p ≡ start p)
        → fetch codec limits poll (some c) ≡ ok batch
        → Sound topic log start batch
    unfolding fetch
    fetch-Sound c batch begin h =
        fetch_loop-Sound _ 0 0 empty_batch batch
          (record {
            at = begin;
            started = λ p l e. absurd (ground arith);
            covered = λ p s o l e f. absurd (ground arith);
            distinct = tt;
          })
          h
