-- ===== src/Portal/Indicators/Snapshots.antt =====
-- What every entry of a snapshot has, when `container_snapshot` made it from Docker's list.
use data_ops_showcase.Prelude.Dict.{lookup-insert, string_key, lookup, insert}
use data_ops_showcase.Portal.{
  no_health, health, with_default, or_text, strip_slashes, container_snapshot, health_of, Snapshot,
  snapshot_loop, Health, Container, Info, info_of, state_bucket,
}
use data_ops_showcase.Prelude.{
  lower-lower, refl, none, str_eq_iff, Bool, Option, inr, arith, subst, [], inl, false, Bool-cases,
  some, ◌∷◌, All, ◌≡◌, str_eq, lower, String, List,
}

pub record IsDerived (info : Info) : Type 0 where
  pub bucket_of : info.bucket ≡ state_bucket (lower info.state) info.health_status info.has_health
  pub is_low : lower info.health_status ≡ info.health_status
  pub not_missing : str_eq info.health_status "missing" ≡ false

abbrev pub IsFromDocker : Snapshot → Type 0
IsFromDocker snap = (name : String) (info : Info) → lookup name snap ≡ some info → IsDerived info

-- "missing" is none of the health states that Docker has.
abbrev pub HasDockerHealth : Container → Type 0
HasDockerHealth c = str_eq (health_of c.health).1 "missing" ≡ false

bucket_of_status :
    (status : Option String) (h : String) (b : Bool)
    → state_bucket (lower (or_text status "")) h b
      ≡ state_bucket (lower (with_default status "unknown")) h b
unfolding state_bucket lower
bucket_of_status none h b = refl
bucket_of_status (some s) h b = ground (arith, str_eq_iff s "")

health_low : (h : Health) → lower (health_of h).1 ≡ (health_of h).1
health_low no_health = unfold lower in refl
health_low (health status) = lower-lower (or_text status "none")

info_of-IsDerived : (c : Container) → HasDockerHealth c → IsDerived (info_of c)
unfolding info_of
info_of-IsDerived c h = record {
  bucket_of = bucket_of_status c.status (health_of c.health).1 (health_of c.health).0;
  is_low = health_low c.health;
  not_missing = h;
}

insert-IsFromDocker :
    (name : String) (info : Info) (snap : Snapshot)
    → IsDerived info
    → IsFromDocker snap
    → IsFromDocker (insert name info snap)
insert-IsFromDocker name info snap d h other found e = elim (Bool-cases (str_eq name other)) [
  | inl same ↦
      subst IsDerived {x = info} {y = found}
        (ground (arith, same, e, lookup-insert name other info snap)) d
  | inr new ↦ h other found (ground (arith, new, e, lookup-insert name other info snap))
]

snapshot_loop-IsFromDocker :
    (cs : List Container) (out : Snapshot)
    → All HasDockerHealth cs
    → IsFromDocker out
    → IsFromDocker (snapshot_loop cs out)
unfolding snapshot_loop
snapshot_loop-IsFromDocker [] out hs h = h
snapshot_loop-IsFromDocker (c ∷ cs) out (fine, hs) h = snapshot_loop-IsFromDocker cs _ hs (
    insert-IsFromDocker (strip_slashes (or_text c.name "")) (info_of c) out
      (info_of-IsDerived c fine) h)

pub container_snapshot-IsFromDocker :
    (cs : List Container) → All HasDockerHealth cs → IsFromDocker (container_snapshot cs)
container_snapshot-IsFromDocker cs hs =
    snapshot_loop-IsFromDocker cs [] hs (λ name info e. absurd (ground arith))
