-- ===== src/Portal/Indicators/Agreement.antt =====
-- How the three indicators are related: the states and the buckets behind them.
use data_ops_showcase.Prelude.Dict.{string_key, lookup}
use data_ops_showcase.Portal.Indicators.Snapshots.{
  IsDerived, container_snapshot-IsFromDocker, HasDockerHealth, IsFromDocker,
}
use data_ops_showcase.Portal.{
  Info, container_snapshot, is_one_of, worst_status, Container, Snapshot, state_bucket, worst_from,
  rank,
}
use data_ops_showcase.Portal.Indicators.{
  flags_from, has_state, has_flag, nonempty, diagram_indicator_triple, class_of, flags_of,
  is_bad_state, health_cls, reach_cls, docker_cls, Flags,
}
use data_ops_showcase.Prelude.{
  none, some, Option, ◌↔◌, lower, ◌∙◌, All, any, inr, str_eq_iff, inl, sym, Bool-cases, subst,
  if◌then◌else◌, refl, true, not, false, [], ◌∷◌, arith, all, ◌&&◌, ◌≡◌, map, str_eq, leb, Bool,
  List, String,
}

abbrev is_fine : Flags → Bool
is_fine f = leb (rank f.bucket) 1

rank-worst_from :
    (w : String) (fs : List Flags)
    → leb (rank (worst_from w (map (λ (f : Flags). f.bucket) fs))) 1
      ≡ (leb (rank w) 1 && all is_fine fs)
rank-worst_from w [] = ground arith
rank-worst_from w (f ∷ fs) = ground (arith, rank-worst_from w fs, rank-worst_from f.bucket fs)

rank_healthy : leb (rank "healthy") 1 ≡ true
unfolding rank
rank_healthy = refl

rank_running : leb (rank "running") 1 ≡ true
unfolding rank
rank_running = refl

rank_degraded : leb (rank "degraded") 1 ≡ false
unfolding rank
rank_degraded = refl

rank_down : leb (rank "down") 1 ≡ false
unfolding rank
rank_down = refl

-- The health flags that no indicator minds.
abbrev well : String → Bool
well flag =
    not (str_eq flag "unhealthy") && (not (str_eq flag "starting") && not (str_eq flag "missing"))

well_of_healthy : (hs : String) → str_eq hs "healthy" ≡ true → well hs ≡ true
well_of_healthy hs h =
    subst (λ x. well x ≡ true) {x = "healthy"} {y = hs} (sym ((str_eq_iff hs "healthy").0 h)) refl

rank-running_bucket :
    (hs : String) (b : Bool)
    → str_eq hs "missing" ≡ false
    → leb (rank (state_bucket "running" hs b)) 1 ≡ well (if b then hs else "none")
unfolding state_bucket
rank-running_bucket hs false h = rank_running
rank-running_bucket hs true h = elim (Bool-cases (str_eq hs "healthy")) [
  | inl is ↦ ground (arith, is, rank_healthy, well_of_healthy hs is)
  | inr other ↦ elim (Bool-cases (str_eq hs "starting")) [
    | inl is ↦ ground (arith, other, is, rank_degraded)
    | inr calm ↦ elim (Bool-cases (str_eq hs "unhealthy")) [
      | inl is ↦ ground (arith, other, calm, is, rank_degraded)
      | inr fine ↦ ground (arith, other, calm, fine, h, rank_running)
    ]
  ]
]

rank-state_bucket :
    (st hs : String) (b : Bool)
    → str_eq hs "missing" ≡ false
    → leb (rank (state_bucket st hs b)) 1 ≡ (str_eq st "running" && well (if b then hs else "none"))
rank-state_bucket st hs b h = elim (Bool-cases (str_eq st "running")) [
  | inl is ↦
      subst
        (λ x.
          leb (rank (state_bucket x hs b)) 1
          ≡ (str_eq x "running" && well (if b then hs else "none")))
        {x = "running"} {y = st} (sym ((str_eq_iff st "running").0 is)) (rank-running_bucket hs b h)
  | inr other ↦ elim (Bool-cases (str_eq st "restarting")) [
    | inl is ↦ unfold state_bucket in ground (arith, other, is, rank_degraded, rank_down)
    | inr never ↦ unfold state_bucket in ground (arith, other, never, rank_down)
  ]
]

fine-flags_from :
    (found : Option Info)
    → ((info : Info) → found ≡ some info → IsDerived info)
    → is_fine (flags_from found)
      ≡ (has_state "running" (flags_from found) && well (flags_from found).health_flag)
fine-flags_from none h = ground (arith, rank_down)
fine-flags_from (some info) h =
    let d = h info refl in
    ground (
      arith,
      d.bucket_of,
      d.is_low,
      rank-state_bucket (lower info.state) info.health_status info.has_health d.not_missing,
    )

fine-flags_of :
    (snap : Snapshot) (name : String)
    → IsFromDocker snap
    → is_fine (flags_of snap name)
      ≡ (has_state "running" (flags_of snap name) && well (flags_of snap name).health_flag)
unfolding flags_of
fine-flags_of snap name h = fine-flags_from (lookup name snap) (h name)

all_fine :
    (snap : Snapshot) (names : List String)
    → IsFromDocker snap
    → all is_fine (map (flags_of snap) names) ≡ (
        all (has_state "running") (map (flags_of snap) names)
        && (not (any (has_flag "unhealthy") (map (flags_of snap) names))
            && (not (any (has_flag "starting") (map (flags_of snap) names))
                && not (any (has_flag "missing") (map (flags_of snap) names)))))
all_fine snap [] h = refl
all_fine snap (name ∷ names) h = ground (arith, fine-flags_of snap name h, all_fine snap names h)

running_not_bad :
    (f : Flags)
    → has_state "running" f ≡ true
    → (is_bad_state f ≡ false) × (str_eq f.state "restarting" ≡ false)
running_not_bad f h =
    subst
      (λ x.
        (is_one_of x ("missing" ∷ "exited" ∷ "dead" ∷ []) ≡ false)
        × (str_eq x "restarting" ≡ false))
      {x = "running"} {y = f.state} (sym ((str_eq_iff f.state "running").0 h)) (refl, refl)

none_bad :
    (fs : List Flags)
    → all (has_state "running") fs ≡ true
    → (any is_bad_state fs ≡ false) × (any (has_state "restarting") fs ≡ false)
none_bad [] h = (refl, refl)
none_bad (f ∷ fs) h =
    let (a, b) = running_not_bad f (ground (arith, h)) in
    let (c, d) = none_bad fs (ground (arith, h)) in (ground (arith, a, c), ground (arith, b, d))

docker_ifs :
    (a b c : Bool)
    → str_eq (if a then "bad" else if b then "warn" else if c then "ok" else "warn") "ok"
      ≡ (not a && (not b && c))
docker_ifs true b c = refl
docker_ifs false true c = refl
docker_ifs false false true = refl
docker_ifs false false false = refl

health_ifs :
    (a b c : Bool)
    → str_eq (if a then "bad" else if b then "warn" else if c then "bad" else "ok") "ok"
      ≡ (not a && (not b && not c))
health_ifs true b c = refl
health_ifs false true c = refl
health_ifs false false true = refl
health_ifs false false false = refl

class_ifs :
    (a b c : Bool)
    → str_eq (if a then "ok" else if b then "ok" else if c then "warn" else "bad") "ok"
      ≡ leb (if a then 0 else if b then 1 else if c then 2 else 3) 1
class_ifs true b c = refl
class_ifs false true c = refl
class_ifs false false true = refl
class_ifs false false false = refl

docker_cls_ok :
    (fs : List Flags) → str_eq (docker_cls fs) "ok" ≡ (nonempty fs && all (has_state "running") fs)
unfolding docker_cls
docker_cls_ok fs =
    docker_ifs (any is_bad_state fs) (any (has_state "restarting") fs)
      (nonempty fs && all (has_state "running") fs)
    ∙ ground (arith, none_bad fs)

health_cls_ok :
    (fs : List Flags)
    → str_eq (health_cls fs) "ok" ≡ (
        not (any (has_flag "unhealthy") fs)
        && (not (any (has_flag "starting") fs) && not (any (has_flag "missing") fs)))
unfolding health_cls
health_cls_ok fs =
    health_ifs (any (has_flag "unhealthy") fs) (any (has_flag "starting") fs)
      (any (has_flag "missing") fs)

class_of_ok : (s : String) → str_eq (class_of s) "ok" ≡ leb (rank s) 1
unfolding rank
class_of_ok s = class_ifs (str_eq s "healthy") (str_eq s "running") (str_eq s "degraded")

reach_cls_ok : (fs : List Flags) → str_eq (reach_cls fs) "ok" ≡ (nonempty fs && all is_fine fs)
unfolding reach_cls worst_status
reach_cls_ok [] = refl
reach_cls_ok (f ∷ fs) =
    class_of_ok (worst_from f.bucket (map (λ (f : Flags). f.bucket) fs))
    ∙ rank-worst_from f.bucket fs

-- In a snapshot that was made from Docker's list, the indicator "reach" of a list of containers is
-- "ok" exactly if "docker" and "health" are.
pub diagram_indicator_triple_ok :
    (containers : List Container) (names : List String)
    → All HasDockerHealth containers
    → (diagram_indicator_triple names (container_snapshot containers)).reach ≡ "ok"
      ↔ ((diagram_indicator_triple names (container_snapshot containers)).docker ≡ "ok")
        × ((diagram_indicator_triple names (container_snapshot containers)).health ≡ "ok")
unfolding diagram_indicator_triple
diagram_indicator_triple_ok containers names h =
    let snap = container_snapshot containers in
    let fs = map (flags_of snap) names in
    ground (
      arith,
      str_eq_iff (reach_cls fs) "ok",
      str_eq_iff (docker_cls fs) "ok",
      str_eq_iff (health_cls fs) "ok",
      reach_cls_ok fs,
      docker_cls_ok fs,
      health_cls_ok fs,
      all_fine snap names (container_snapshot-IsFromDocker containers h),
    )
