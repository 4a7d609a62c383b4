-- ===== src/Runs/Rows.antt =====
-- The rows of the ledger that `finish_run` and `start_run` write.
use mathlib.Core.List.{map-append}
use data_ops_showcase.Prelude.{
  ==_iff, ◌==◌, refl, [], if◌then◌else◌, ap, arith, ◌∷◌, map, Option, ◌≡◌, String, ◌++◌, ◌<◌, List,
  All, ℕ,
}
use data_ops_showcase.Runs.{
  finished, Payload, start_run, PipelineRun, Finish, finish_rows, finish_run, Ledger,
}

module _ {E : Type 0} where
  -- The ids of the ledger come from its sequence.
  abbrev pub IsSerial : Ledger E → Type 0
  IsSerial l = All (λ r. r.run_id < l.next_id) l.runs

  abbrev pub statuses : List (PipelineRun E) → List String
  statuses rs = map (λ r. r.status) rs

  finish_rows-append :
      (id : ℕ) (f : Finish E) (rs qs : List (PipelineRun E))
      → finish_rows id f (rs ++ qs) ≡ finish_rows id f rs ++ finish_rows id f qs
  unfolding finish_rows
  finish_rows-append id f [] qs = refl
  finish_rows-append id f (r ∷ rs) qs =
      ap (λ x. (if r.run_id == id then finished f r else r) ∷ x) (finish_rows-append id f rs qs)

  finish_rows_below :
      (id : ℕ) (f : Finish E) (rs : List (PipelineRun E))
      → All (λ r. r.run_id < id) rs
      → finish_rows id f rs ≡ rs
  unfolding finish_rows
  finish_rows_below id f [] h = refl
  finish_rows_below id f (r ∷ rs) (lt, h) = ground (arith, finish_rows_below id f rs h)

  -- A started run that is finished adds its final status to the ledger; the other runs keep theirs.
  pub statuses-finish_run :
      (dag task : String) (source layer : Option String) (p : Payload) (f : Finish E) (l : Ledger E)
      → IsSerial l
      → statuses
          (finish_run
            (start_run dag task source layer p l).0
            f
            (start_run dag task source layer p l).1).runs
        ≡ statuses l.runs ++ f.status ∷ []
  unfolding finish_run start_run finish_rows finished
  statuses-finish_run dag task source layer p f l h = simp (
    finish_rows-append l.next_id f l.runs,
    finish_rows_below l.next_id f l.runs h,
    map-append,
    (==_iff l.next_id l.next_id).1 refl,
  )

  pub start_run_keeps :
      (dag task : String) (source layer : Option String) (p : Payload) (l : Ledger E)
      → statuses (start_run dag task source layer p l).1.runs ≡ statuses l.runs ++ "running" ∷ []
  unfolding start_run
  start_run_keeps dag task source layer p l = simp map-append
