-- ===== src/Atlas/Gates.antt =====
-- The gates of atlas_quality_gates.py together.
use data_ops_showcase.Atlas.Valid.{validate_entities-IsCatalog, append-nil_iff, IsCatalog}
use data_ops_showcase.Atlas.{validate_entities, Entity, EntityError}
use data_ops_showcase.Atlas.Search.{
  no_presence, too_few, at_least_zero, coarse_total, invalid, fail_msgs,
}
use data_ops_showcase.Prelude.{
  ◌++◌, refl, inr, not, inl, Bool-cases, ◌||◌, ◌==◌, ◌&&◌, ltb, if◌then◌else◌, true, ◌<◌, ◌⊎◌,
  false, ◌≤◌, ◌∷◌, arith, ◌↔◌, [], Bool, ℕ, ◌≡◌, Option, map, String, List,
}

map-invalid-nil : (xs : List EntityError) → (map invalid xs ≡ []) ↔ (xs ≡ [])
map-invalid-nil [] = ground arith
map-invalid-nil (x ∷ xs) = ground arith

few-nil :
    (total least : ℕ)
    → ((if ltb total least then too_few total least ∷ [] else []) ≡ []) ↔ (least ≤ total)
few-nil total least = elim (Bool-cases (ltb total least)) [
  | inl few ↦ ground (arith, few)
  | inr enough ↦ ground (arith, enough)
]

presence-nil :
    (required seen : Bool) (topics : ℕ)
    → ((if required && (topics == 0 || not seen) then no_presence ∷ [] else []) ≡ [])
      ↔ (required ≡ false ⊎ ((0 < topics) × (seen ≡ true)))
presence-nil false seen topics = (λ h. inl refl, λ h. refl)
presence-nil true false topics = (
  λ h. absurd (ground (arith, h)),
  λ h. elim h [ inl x ↦ ground (arith, x) | inr (x, y) ↦ ground (arith, y) ],
)
presence-nil true true topics = elim (Bool-cases (topics == 0)) [
  | inl empty ↦ (
    λ h. absurd (ground (arith, empty, h)),
    λ h. elim h [ inl x ↦ ground (arith, x) | inr (x, y) ↦ ground (arith, empty, x) ],
  )
  | inr some_topics ↦
      (λ h. inr (ground (arith, some_topics), refl), λ h. ground (arith, some_topics))
]

-- The gates pass exactly where the file is a catalog, the counts sum up to the minimum, and, where presence
-- is required, there is a topic and a Spark process.
pub fail_msgs-IsCatalog :
    (es : List Entity) (count : String → Option ℕ) (min_any_total : ℕ)
    (require_presence spark_seen : Bool)
    → (fail_msgs es count min_any_total require_presence spark_seen ≡ []) ↔ (
        IsCatalog es
        × (min_any_total ≤ coarse_total count)
        × (require_presence ≡ false
            ⊎ ((0 < at_least_zero (count "kafka_topic")) × (spark_seen ≡ true))))
unfolding fail_msgs
fail_msgs-IsCatalog es count min_any_total require_presence spark_seen =
    let few = few-nil (coarse_total count) min_any_total in
    let presence = presence-nil require_presence spark_seen (at_least_zero (count "kafka_topic")) in
    let more =
      append-nil_iff
        (if ltb (coarse_total count) min_any_total
          then too_few (coarse_total count) min_any_total ∷ []
          else [])
        (if require_presence && (at_least_zero (count "kafka_topic") == 0 || not spark_seen)
          then no_presence ∷ []
          else []) in
    let parts = append-nil_iff (map invalid (validate_entities es)) (
      (if ltb (coarse_total count) min_any_total
        then too_few (coarse_total count) min_any_total ∷ []
        else [])
      ++ (if require_presence && (at_least_zero (count "kafka_topic") == 0 || not spark_seen)
          then no_presence ∷ []
          else [])) in
    let errors = map-invalid-nil (validate_entities es) in
    let catalog = validate_entities-IsCatalog es in
    (
      λ h.
          let (a, bc) = parts.0 h in
          let (b, c) = more.0 bc in (catalog.0 (errors.0 a), few.0 b, presence.0 c),
      λ h. parts.1 (errors.1 (catalog.1 h.0), more.1 (few.1 h.1, presence.1 h.2)),
    )
