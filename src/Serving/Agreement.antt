-- ===== src/Serving/Agreement.antt =====
-- What Redis and the snapshot hold after a run.
use data_ops_showcase.Exec.{◌>>=◌, ◌>>◌}
use data_ops_showcase.Storage.{bulk_insert}
use data_ops_showcase.Exec.Rules.{bind_returned}
use data_ops_showcase.Prelude.Dict.{lookup-insert, lookup, string_key, insert, Dict}
use data_ops_showcase.Serving.{
  mark_served, upsert_snapshot, upsert_rows, materialize_redis_and_snapshot, value_of, as_num,
  is_numeric, redis_text, ServingStore, full_key, SqlValue, SnapshotRow, ServingMetric,
  materialize_loop, metric_row, materialize_metric, ServingCalls, Decimal,
}
use data_ops_showcase.Prelude.{
  str_eq_iff, refl, subst₂, ◌∙◌, sym, ap, Result-cases, ◌+◌, arith, some, length, inr, [], err, inl,
  false, subst, Option-cases, Bool-cases, str_eq, ok, ◌≡◌, any, ◌∷◌, ℕ, List, Option, String,
}
use data_ops_showcase.Exec.{pure, ◌>>=◌}

module _ (parse_decimal : String → Option Decimal) (key_prefix : String)
    (calls : ServingCalls) where
  abbrev key_of : ServingMetric → String
  key_of m = full_key parse_decimal key_prefix calls m

  -- The keys of the metrics in Redis differ.
  abbrev pub HasDistinctMetrics : List ServingMetric → Type 0
  HasDistinctMetrics [] = Unit
  HasDistinctMetrics (m ∷ ms) =
      (any (λ q. str_eq (key_of q) (key_of m)) ms ≡ false) × HasDistinctMetrics ms

  -- Row by row, Redis has the text of the row under the metric's key.
  abbrev pub Agrees : List ServingMetric → List SnapshotRow → Dict String String → Type 0
  Agrees [] [] redis = Unit
  Agrees [] (r ∷ rs) redis = ⊥
  Agrees (m ∷ ms) [] redis = ⊥
  Agrees (m ∷ ms) (r ∷ rs) redis =
      (r.metric_key ≡ m.metric_key)
      × (lookup (key_of m) redis ≡ some (redis_text m r))
      × Agrees ms rs redis

  record IsWritten (m : ServingMetric) (r : SnapshotRow) (s t : ServingStore) : Type 0 where
    key : r.metric_key ≡ m.metric_key
    redis : t.redis ≡ insert (key_of m) (redis_text m r) s.redis
    snapshot : t.snapshot ≡ s.snapshot

  metric_row-key :
      (m : ServingMetric) (v : SqlValue) (r : SnapshotRow)
      → metric_row parse_decimal calls.now m v ≡ ok r
      → r.metric_key ≡ m.metric_key
  unfolding metric_row
  metric_row-key m v r h = elim (Bool-cases (is_numeric m)) [
    | inr plain ↦ ground (arith, plain, h)
    | inl number ↦ elim (Result-cases (as_num parse_decimal v)) [
      | inl (num, e) ↦ ground (arith, number, e, h)
      | inr (x, e) ↦ absurd (ground (arith, number, e, h))
    ]
  ]

  materialize_metric-IsWritten :
      (n : ℕ) (m : ServingMetric) (r : SnapshotRow) (s t : ServingStore)
      → materialize_metric parse_decimal key_prefix calls n m s ≡ (ok r, t)
      → IsWritten m r s t
  unfolding materialize_metric
  materialize_metric-IsWritten n m r s t h = elim (Option-cases (calls.fetch_one n)) [
    | inl fails ↦ absurd (ground (arith, fails, h))
    | inr (row, answers) ↦
        elim (Result-cases (metric_row parse_decimal calls.now m (value_of row))) [
          | inr (x, bad) ↦ absurd (ground (arith, answers, bad, h))
          | inl (q, made) ↦ elim (Bool-cases (calls.set_fails n)) [
            | inl fails ↦ absurd (ground (arith, answers, made, fails, h))
            | inr sets ↦
                let same : q ≡ r = ground (arith, answers, made, sets, h) in
                record {
                  key = sym (ap (λ x. x.metric_key) same) ∙ metric_row-key m (value_of row) q made;
                  redis = ground (arith, answers, made, sets, h);
                  snapshot = ground (arith, answers, made, sets, h);
                }
          ]
        ]
  ]

  record IsLooped (ms : List ServingMetric) (rows : List SnapshotRow) (s t : ServingStore)
      : Type 0 where
    agrees : Agrees ms rows t.redis
    keeps :
        (k : String)
        → any (λ q. str_eq (key_of q) k) ms ≡ false
        → lookup k t.redis ≡ lookup k s.redis
    snapshot : t.snapshot ≡ s.snapshot
    count : length rows ≡ length ms

  materialize_loop-IsLooped :
      (n : ℕ) (ms : List ServingMetric) (rows : List SnapshotRow) (s t : ServingStore)
      → HasDistinctMetrics ms
      → materialize_loop parse_decimal key_prefix calls n ms s ≡ (ok rows, t)
      → IsLooped ms rows s t
  unfolding materialize_loop
  materialize_loop-IsLooped n [] rows s t d h =
      subst (λ x. IsLooped [] (elim x.0 [ ok rs ↦ rs | err e ↦ [] ]) s x.1) {x = (ok [], s)}
        {y = (ok rows, t)} h
        (record { agrees = tt; keeps = λ k e. refl; snapshot = refl; count = refl })
  materialize_loop-IsLooped n (m ∷ ms) rows s t (apart, d) h =
      let (r, mid, one, more) =
        bind_returned (materialize_metric parse_decimal key_prefix calls n m)
          (λ r. materialize_loop parse_decimal key_prefix calls (n + 1) ms >>= λ rs. pure (r ∷ rs))
          rows s t h in
      let (rs, last, rest, done) =
        bind_returned (materialize_loop parse_decimal key_prefix calls (n + 1) ms)
          (λ rs. pure (r ∷ rs)) rows mid t more in
      let w = materialize_metric-IsWritten n m r s mid one in
      let l = materialize_loop-IsLooped (n + 1) ms rs mid last d rest in
      let ends : last ≡ t = ap (λ x. x.1) done in
      let all_rows : r ∷ rs ≡ rows = ground (arith, done) in
      subst₂ (λ x y. IsLooped (m ∷ ms) x s y) all_rows ends
        (record {
          agrees = (
            w.key,
            l.keeps (key_of m) apart
                ∙ ap (lookup (key_of m)) w.redis
                ∙ ground (
                  arith,
                  lookup-insert (key_of m) (key_of m) (redis_text m r) s.redis,
                  (str_eq_iff (key_of m) (key_of m)).1 refl,
                ),
            l.agrees,
          );
          keeps = λ k e.
              l.keeps k (ground (arith, e))
              ∙ ap (lookup k) w.redis
              ∙ ground (arith, e, lookup-insert (key_of m) k (redis_text m r) s.redis);
          snapshot = l.snapshot ∙ w.snapshot;
          count = ground (arith, l.count);
        })

  -- After a run that returns, where the keys of the metrics in Redis differ, the rows that the run has
  -- upserted into the snapshot are one for each metric, their number is what it returns, and Redis has
  -- under each metric's key the text of its row.
  pub materialize_redis_and_snapshot-Agrees :
      (paginate : ℕ → List SnapshotRow → List (List SnapshotRow)) (ms : List ServingMetric)
      (s s' : ServingStore) (n : ℕ)
      → HasDistinctMetrics ms
      → materialize_redis_and_snapshot parse_decimal key_prefix calls paginate ms s ≡ (ok n, s')
      → (rows : List SnapshotRow) × (k : ℕ) × Agrees ms rows s'.redis
        × (n ≡ length ms)
        × (upsert_rows parse_decimal key_prefix calls paginate rows s.snapshot
            ≡ some (s'.snapshot, k))
  unfolding materialize_redis_and_snapshot bulk_insert
  materialize_redis_and_snapshot-Agrees paginate [] s s' n d h =
      ([], 0, tt, ground (arith, h), ground (arith, h))
  materialize_redis_and_snapshot-Agrees paginate (m ∷ ms) s s' n d h =
      let (rows, mid, looped, more) =
        bind_returned (materialize_loop parse_decimal key_prefix calls 0 (m ∷ ms))
          (λ rows.
            upsert_snapshot parse_decimal key_prefix calls paginate calls.upsert_fails rows
            >> mark_served parse_decimal key_prefix calls paginate calls.watermark_fails
                (length rows))
          n s s' h in
      let l = materialize_loop-IsLooped 0 (m ∷ ms) rows s mid d looped in
      elim (Bool-cases calls.upsert_fails) [
        | inl fails ↦ absurd (ground (arith, fails, more))
        | inr works ↦
            elim (Option-cases
              (upsert_rows parse_decimal key_prefix calls paginate rows mid.snapshot)) [
                | inl bad ↦ absurd (ground (arith, works, bad, more))
                | inr ((t, k), stored) ↦ elim (Bool-cases calls.watermark_fails) [
                  | inl fails ↦ absurd (ground (arith, works, stored, fails, more))
                  | inr marks ↦
                      let kept : s'.redis ≡ mid.redis =
                        ground (arith, works, stored, marks, more) in
                      let table : t ≡ s'.snapshot = ground (arith, works, stored, marks, more) in
                      let counted : n ≡ length rows = ground (arith, works, stored, marks, more) in
                      (
                        rows,
                        k,
                        subst (Agrees (m ∷ ms) rows) (sym kept) l.agrees,
                        counted ∙ l.count,
                        ap (upsert_rows parse_decimal key_prefix calls paginate rows)
                              (sym l.snapshot)
                            ∙ stored
                            ∙ ap (λ x. some (x, k)) table,
                      )
                ]
              ]
      ]
