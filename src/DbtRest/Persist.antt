-- ===== src/DbtRest/Persist.antt =====
-- The rows of the table while the end of a run is stored.
use data_ops_showcase.DbtRest.{
  forced_row, fallback_note, force_terminal_persist, mark_finished_best_effort, finished_row,
  mark_finished, finish_attempts, find_run, Runs, RunRow, Ending, EndCalls, update_run,
}
use data_ops_showcase.Prelude.{
  Text, Option-cases, refl, ==_iff, sym, [], subst, zero, inr, ◌==◌, ◌∷◌, ◌≢◌, inl, none,
  str_eq_iff, suc, str_eq, ◌+◌, arith, ◌⊎◌, Bool-cases, if◌then◌else◌, ◌≤◌, some, false, max, ◌≡◌,
  ◌<◌, String, ℕ,
}

-- An update that keeps the run id changes the row of that id, and no other.
pub find_run-update_run :
    (f : RunRow → RunRow) (run_id other : String) (rs : Runs)
    → ((r : RunRow) → (f r).run_id ≡ r.run_id)
    → find_run other (update_run f run_id rs) ≡ (
        if str_eq run_id other
        then elim (find_run other rs) [ none ↦ none | some r ↦ some (f r) ]
        else find_run other rs)
unfolding update_run
find_run-update_run f run_id other [] keeps = ground arith
find_run-update_run f run_id other (r ∷ rs) keeps =
    let rest = find_run-update_run f run_id other rs keeps in
    elim (Bool-cases (str_eq run_id other)) [
      | inl same ↦ elim (Bool-cases (str_eq r.run_id run_id)) [
        | inl here ↦ ground (
          arith,
          rest,
          same,
          here,
          keeps r,
          str_eq_iff run_id other,
          str_eq_iff r.run_id run_id,
          str_eq_iff r.run_id other,
        )
        | inr there ↦ ground (
          arith,
          rest,
          same,
          there,
          str_eq_iff run_id other,
          str_eq_iff r.run_id run_id,
          str_eq_iff r.run_id other,
        )
      ]
      | inr apart ↦ elim (Bool-cases (str_eq r.run_id run_id)) [
        | inl here ↦ ground (
          arith,
          rest,
          apart,
          here,
          keeps r,
          str_eq_iff run_id other,
          str_eq_iff r.run_id run_id,
          str_eq_iff r.run_id other,
        )
        | inr there ↦ ground (arith, rest, apart, there)
      ]
    ]

-- What a stored end says of a row.
pub record HasEnded (e : Ending) (r : RunRow) : Type 0 where
  pub has_status : r.status ≡ e.status
  pub has_finished : r.finished_at ≡ some e.finished
  pub has_artifacts : r.artifact_names ≡ e.artifact_names

-- One of the attempts to store the end succeeds, or the last resort does.
abbrev pub Stores : ℕ → EndCalls → Type 0
Stores retries calls =
    ((k : ℕ) × (k < max 1 retries) × (calls.finish_fails k ≡ false)) ⊎ (calls.force_fails ≡ false)

module _ (limit : ℕ) (calls : EndCalls) (run_id : String) (e : Ending) (logs : Text) where
  stored_by :
      (f : RunRow → RunRow) (rs : Runs) (r : RunRow)
      → ((x : RunRow) → (f x).run_id ≡ x.run_id)
      → find_run run_id rs ≡ some r
      → HasEnded e (f r)
      → (r' : RunRow) × (find_run run_id (update_run f run_id rs) ≡ some r') × HasEnded e r'
  stored_by f rs r keeps found ended = (
    f r,
    ground (arith, find_run-update_run f run_id run_id rs keeps, found, str_eq_iff run_id run_id),
    ended,
  )

  finish_attempts-some :
      (left n : ℕ) (rs : Runs) (r : RunRow) (rs' : Runs)
      → find_run run_id rs ≡ some r
      → finish_attempts limit calls left n run_id e logs rs ≡ some rs'
      → (r' : RunRow) × (find_run run_id rs' ≡ some r') × HasEnded e r'
  unfolding finish_attempts mark_finished
  finish_attempts-some zero n rs r rs' found h = absurd (ground arith)
  finish_attempts-some (suc left) n rs r rs' found h = elim (Bool-cases (calls.finish_fails n)) [
    | inl fails ↦ finish_attempts-some left (n + 1) rs r rs' found (ground (arith, fails, h))
    | inr stores ↦
        subst (λ x. (r' : RunRow) × (find_run run_id x ≡ some r') × HasEnded e r')
          {x = update_run (finished_row limit e logs) run_id rs} {y = rs'}
          (ground (arith, stores, h))
          (stored_by (finished_row limit e logs) rs r (λ x. unfold finished_row in refl) found
            (unfold finished_row in
              record { has_status = refl; has_finished = refl; has_artifacts = refl }))
  ]

  finish_attempts-none :
      (left n k : ℕ) (rs : Runs)
      → n ≤ k
      → k < n + left
      → calls.finish_fails k ≡ false
      → finish_attempts limit calls left n run_id e logs rs ≢ none
  unfolding finish_attempts mark_finished
  finish_attempts-none zero n k rs low high stores h = omega (arith, low, high)
  finish_attempts-none (suc left) n k rs low high stores h = elim (Bool-cases (n == k)) [
    | inl same ↦
        let here : calls.finish_fails n ≡ false =
          subst (λ x. calls.finish_fails x ≡ false) {x = k} {y = n} (sym ((==_iff n k).0 same))
            stores in
        ground (arith, here, h)
    | inr other ↦ elim (Bool-cases (calls.finish_fails n)) [
      | inr here ↦ ground (arith, here, h)
      | inl fails ↦
          finish_attempts-none left (n + 1) k rs (ground (arith, low, other)) (omega (arith, high))
            stores (ground (arith, fails, h))
    ]
  ]

  -- Where an attempt to store the end of a run succeeds, or the last resort does, the run's row has
  -- that end afterwards.
  pub mark_finished_best_effort-HasEnded :
      (retries : ℕ) (rs : Runs) (r : RunRow)
      → find_run run_id rs ≡ some r
      → Stores retries calls
      → (r' : RunRow) × (find_run run_id
            (mark_finished_best_effort limit retries calls run_id e logs rs)
          ≡ some r')
        × HasEnded e r'
  unfolding mark_finished_best_effort force_terminal_persist
  mark_finished_best_effort-HasEnded retries rs r found stores =
      elim (Option-cases (finish_attempts limit calls (max 1 retries) 0 run_id e logs rs)) [
        | inr (rs', h) ↦
            subst (λ x. (r' : RunRow) × (find_run run_id x ≡ some r') × HasEnded e r') {x = rs'}
              {y = mark_finished_best_effort limit retries calls run_id e logs rs}
              (ground (arith, h)) (finish_attempts-some (max 1 retries) 0 rs r rs' found h)
        | inl failed ↦ elim stores [
          | inl (k, lt, stored) ↦ absurd (
              finish_attempts-none (max 1 retries) 0 k rs (omega arith) (omega (arith, lt)) stored
                failed)
          | inr forced ↦
              let note = fallback_note calls.failure e.status logs in
              subst (λ x. (r' : RunRow) × (find_run run_id x ≡ some r') × HasEnded e r')
                {x = update_run (forced_row limit e note) run_id rs}
                {y = mark_finished_best_effort limit retries calls run_id e logs rs}
                (ground (arith, failed, forced))
                (stored_by (forced_row limit e note) rs r (λ x. unfold forced_row in refl) found
                  (unfold forced_row in
                    record { has_status = refl; has_finished = refl; has_artifacts = refl }))
        ]
      ]

  other_kept :
      (f : RunRow → RunRow) (other : String) (rs : Runs)
      → ((x : RunRow) → (f x).run_id ≡ x.run_id)
      → str_eq run_id other ≡ false
      → find_run other (update_run f run_id rs) ≡ find_run other rs
  other_kept f other rs keeps apart =
      ground (arith, apart, find_run-update_run f run_id other rs keeps)

  finish_attempts-other :
      (left n : ℕ) (other : String) (rs rs' : Runs)
      → str_eq run_id other ≡ false
      → finish_attempts limit calls left n run_id e logs rs ≡ some rs'
      → find_run other rs' ≡ find_run other rs
  unfolding finish_attempts mark_finished
  finish_attempts-other zero n other rs rs' apart h = absurd (ground arith)
  finish_attempts-other (suc left) n other rs rs' apart h =
      elim (Bool-cases (calls.finish_fails n)) [
        | inl fails ↦
            finish_attempts-other left (n + 1) other rs rs' apart (ground (arith, fails, h))
        | inr stores ↦
            let kept =
              other_kept (finished_row limit e logs) other rs (λ x. unfold finished_row in refl)
                apart in
            ground (arith, stores, h, kept)
      ]

  -- Whatever fails, storing the end of a run leaves the rows of the other runs as they are.
  pub mark_finished_best_effort-other :
      (retries : ℕ) (other : String) (rs : Runs)
      → str_eq run_id other ≡ false
      → find_run other (mark_finished_best_effort limit retries calls run_id e logs rs)
        ≡ find_run other rs
  unfolding mark_finished_best_effort force_terminal_persist
  mark_finished_best_effort-other retries other rs apart =
      elim (Option-cases (finish_attempts limit calls (max 1 retries) 0 run_id e logs rs)) [
        | inr (rs', h) ↦
            ground (arith, h, finish_attempts-other (max 1 retries) 0 other rs rs' apart h)
        | inl failed ↦ elim (Bool-cases calls.force_fails) [
          | inl fails ↦ ground (arith, failed, fails)
          | inr forced ↦
              let note = fallback_note calls.failure e.status logs in
              let kept =
                other_kept (forced_row limit e note) other rs (λ x. unfold forced_row in refl)
                  apart in
              ground (arith, failed, forced, kept)
        ]
      ]
