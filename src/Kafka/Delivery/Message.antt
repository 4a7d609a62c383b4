-- ===== src/Kafka/Delivery/Message.antt =====
-- What `append_message` does to a batch, when the message comes from such a broker.
use data_ops_showcase.Kafka.Delivery.{is_at, Covered, holds, Delivers, resume}
use data_ops_showcase.Prelude.{
  str_eq_iff, str_eq, ==_iff, subst, inr, [], ◌∷◌, inl, Bool-cases, Option-cases, ℕ, ◌+◌, max, ◌≡◌,
  arith, any-append, Option, none, some, String, Bool, false, ◌&&◌, ◌||◌, ◌==◌, if◌then◌else◌,
}
use data_ops_showcase.Prelude.Dict.{
  insert-HasDistinctKeys, HasDistinctKeys, Dict, lookup, lookup-insert, nat_key,
}
use data_ops_showcase.Kafka.{to_message, RawMessage, MicroBatchResult, append_message, advance}

-- What the loop keeps, for each partition `p`.
pub record Tracks {V : Type 0} (topic : String) (log : ℕ → ℕ → Bool) (start now : ℕ → Option ℕ)
    (r : MicroBatchResult V) : Type 0 where
  pub at : (p : ℕ) → now p ≡ resume (start p) (lookup p r.last_offsets)
  pub started : (p l : ℕ) → lookup p r.last_offsets ≡ some l → (s : ℕ) × (start p ≡ some s)
  pub covered : (p : ℕ) → Covered topic log start r p
  pub distinct : HasDistinctKeys r.last_offsets

lookup-advance :
    (p o q : ℕ) (d : Dict ℕ ℕ)
    → lookup q (advance p o d) ≡ (
        if p == q
        then some (elim (lookup p d) [ none ↦ o | some last ↦ max last o ])
        else lookup q d)
unfolding advance
lookup-advance p o q d = lookup-insert p q _ d

holds-append_message :
    {V : Type 0} (topic : String) (msg : RawMessage) (v : V) (k : Option String)
    (r : MicroBatchResult V) (p o : ℕ)
    → holds topic p o (append_message msg v k r).messages ≡ (
        holds topic p o r.messages
        || (str_eq msg.topic topic && (msg.partition == p && msg.offset == o)))
unfolding append_message to_message
holds-append_message topic msg v k r p o =
    ground (arith, any-append (is_at topic p o) r.messages (to_message msg v k ∷ []))

module _ {V : Type 0} {topic : String} {log : ℕ → ℕ → Bool} {cursor : ℕ → ℕ → Option ℕ}
    {poll : ℕ → Option RawMessage} (d : Delivers topic log cursor poll) (start : ℕ → Option ℕ)
    (n : ℕ) (msg : RawMessage) (v : V) (k : Option String) (r : MicroBatchResult V)
    (e : poll n ≡ some msg) (fine : msg.error ≡ none)
    (t : Tracks topic log start (cursor n) r) where
  at_after :
      (p : ℕ)
      → cursor (n + 1) p ≡ resume (start p) (lookup p (append_message msg v k r).last_offsets)
  unfolding append_message
  at_after p =
      let (c, at_c, low) = d.assigned n msg e fine in
      ground (
        arith,
        d.moves n msg p e fine,
        lookup-advance msg.partition msg.offset p r.last_offsets,
        t.at p,
        t.at msg.partition,
        at_c,
        low,
      )

  start_of_message : (s : ℕ) × (start msg.partition ≡ some s)
  start_of_message =
      let (c, at_c, low) = d.assigned n msg e fine in
      elim (Option-cases (lookup msg.partition r.last_offsets)) [
        | inl fresh ↦ (c, ground (arith, t.at msg.partition, at_c))
        | inr (l, seen) ↦ t.started msg.partition l seen
      ]

  started_after :
      (p l : ℕ)
      → lookup p (append_message msg v k r).last_offsets ≡ some l
      → (s : ℕ) × (start p ≡ some s)
  unfolding append_message
  started_after p l h = elim (Bool-cases (msg.partition == p)) [
    | inl same ↦ let (s, begun) = start_of_message in (s, ground (arith, begun))
    | inr other ↦
        t.started p l (ground (arith, lookup-advance msg.partition msg.offset p r.last_offsets))
  ]

  append_message-Covered_elsewhere :
      (p : ℕ) → (msg.partition == p) ≡ false → Covered topic log start (append_message msg v k r) p
  append_message-Covered_elsewhere p other s o l hs hl low high rec =
      ground
        (arith, holds-append_message topic msg v k r p o, t.covered p s o l hs old low high rec)
    where
      old : lookup p r.last_offsets ≡ some l
      old =
          unfold append_message in
          ground (arith, lookup-advance msg.partition msg.offset p r.last_offsets)

  append_message-Covered_here : Covered topic log start (append_message msg v k r) msg.partition
  unfolding append_message
  append_message-Covered_here s o l hs hl low high rec =
      let (c, at_c, le) = d.assigned n msg e fine in
      elim (Option-cases (lookup msg.partition r.last_offsets)) [
        | inl fresh ↦ ground (
          arith,
          lookup-advance msg.partition msg.offset msg.partition r.last_offsets,
          t.at msg.partition,
          at_c,
          le,
          d.in_order n msg c o e fine at_c,
          holds-append_message topic msg v k r msg.partition o,
          (str_eq_iff msg.topic topic).1 (d.subscribed n msg e fine),
        )
        | inr (m, seen) ↦ ground (
          arith,
          lookup-advance msg.partition msg.offset msg.partition r.last_offsets,
          t.at msg.partition,
          at_c,
          le,
          d.in_order n msg c o e fine at_c,
          holds-append_message topic msg v k r msg.partition o,
          (str_eq_iff msg.topic topic).1 (d.subscribed n msg e fine),
          t.covered msg.partition s o m,
        )
      ]

  append_message-Covered : (p : ℕ) → Covered topic log start (append_message msg v k r) p
  append_message-Covered p = elim (Bool-cases (msg.partition == p)) [
    | inl same ↦
        subst (Covered topic log start (append_message msg v k r)) ((==_iff msg.partition p).0 same)
          append_message-Covered_here
    | inr other ↦ append_message-Covered_elsewhere p other
  ]

  distinct_after : HasDistinctKeys (append_message msg v k r).last_offsets
  unfolding append_message advance
  distinct_after = insert-HasDistinctKeys msg.partition _ r.last_offsets t.distinct

  pub append_message-Tracks : Tracks topic log start (cursor (n + 1)) (append_message msg v k r)
  append_message-Tracks = record {
    at = at_after;
    started = started_after;
    covered = append_message-Covered;
    distinct = distinct_after;
  }
