-- ===== src/Atlas/Again.antt =====
-- A file that is published twice.
use data_ops_showcase.Exec.{continue}
use data_ops_showcase.Atlas.Valid.{validate_entities-IsCatalog, IsComplete}
use data_ops_showcase.Exec.Rules.{bind_returned}
use data_ops_showcase.Prelude.{
  ◌∙◌, ap, ◌+◌, All, List, leb, Option-cases, inr, refl, [], inl, Bool-cases, arith, ◌∷◌, false, ok,
  some, true, ℕ, ◌≡◌, any, Text,
}
use data_ops_showcase.Atlas.{
  validate_entities, EntityError, get, text_of, counts_as_no, same_key, qualified_name_key, Entity,
}
use data_ops_showcase.Nl2sql.{text_same}
use data_ops_showcase.Atlas.Publish.{
  load_entities_from_yaml, YamlDocument, main, publish_loop, publish_one, build_entity_body,
  body_key, is_found, post_entity, PublishCalls, AtlasStore,
}

text_same_refl : (t : Text) → text_same t t ≡ true
unfolding text_same
text_same_refl [] = refl
text_same_refl (c ∷ t) = ground (arith, text_same_refl t)

-- The name has no white space around it.
abbrev pub IsTrimmed : Entity → Type 0
IsTrimmed e = qualified_name_key e ≡ some (text_of (get "qualifiedName" e.attributes))

abbrev key_of : Entity → Text × Text
key_of e = body_key (build_entity_body e)

abbrev HasKey : AtlasStore → Entity → Type 0
HasKey s e = any (same_key (key_of e)) s.keys ≡ true

module _ (calls : PublishCalls) where
  publish_one-keys :
      (n : ℕ) (e : Entity) (k : Text × Text) (s s' : AtlasStore) (u : Unit {0})
      → publish_one true calls n e s ≡ (ok u, s')
      → any (same_key k) s.keys ≡ true
      → any (same_key k) s'.keys ≡ true
  unfolding post_entity
  publish_one-keys n e k s s' u h there = elim (Bool-cases (is_found calls n e s)) [
    | inl found ↦ ground (arith, found, h, there)
    | inr new ↦ elim (Option-cases (calls.post_code n)) [
      | inl raises ↦ absurd (ground (arith, new, raises, h))
      | inr (code, replies) ↦ elim (Bool-cases (leb 400 code)) [
        | inl refused ↦ absurd (ground (arith, new, replies, refused, h))
        | inr accepted ↦
            let same : s'.keys ≡ key_of e ∷ s.keys = ground (arith, new, replies, accepted, h) in
            ground (arith, same, there)
      ]
    ]
  ]

  publish_one-HasKey :
      (n : ℕ) (e : Entity) (s s' : AtlasStore) (u : Unit {0})
      → counts_as_no e.type_name ≡ false
      → IsTrimmed e
      → publish_one true calls n e s ≡ (ok u, s')
      → HasKey s' e
  unfolding is_found post_entity
  publish_one-HasKey n e s s' u typed trimmed h = elim (Bool-cases (is_found calls n e s)) [
    | inl found ↦ ground (arith, found, typed, trimmed, h)
    | inr new ↦ elim (Option-cases (calls.post_code n)) [
      | inl raises ↦ absurd (ground (arith, new, raises, h))
      | inr (code, replies) ↦ elim (Bool-cases (leb 400 code)) [
        | inl refused ↦ absurd (ground (arith, new, replies, refused, h))
        | inr accepted ↦
            let same : s'.keys ≡ key_of e ∷ s.keys = ground (arith, new, replies, accepted, h) in
            ground (arith, same, text_same_refl (key_of e).0, text_same_refl (key_of e).1)
      ]
    ]
  ]

  publish_loop-keys :
      (n : ℕ) (es : List Entity) (k : Text × Text) (s s' : AtlasStore) (u : Unit {0})
      → publish_loop true calls n es s ≡ (ok u, s')
      → any (same_key k) s.keys ≡ true
      → any (same_key k) s'.keys ≡ true
  unfolding publish_loop
  publish_loop-keys n [] k s s' u h there = ground (arith, h, there)
  publish_loop-keys n (e ∷ es) k s s' u h there =
      let (v, t, one, rest) =
        bind_returned (publish_one true calls n e) (λ v. publish_loop true calls (n + 1) es) u s s'
          h in
      publish_loop-keys (n + 1) es k t s' u rest (publish_one-keys n e k s t v one there)

  publish_loop-HasKey :
      (n : ℕ) (es : List Entity) (s s' : AtlasStore) (u : Unit {0})
      → All IsComplete es
      → All IsTrimmed es
      → publish_loop true calls n es s ≡ (ok u, s')
      → All (HasKey s') es
  unfolding publish_loop
  publish_loop-HasKey n [] s s' u cs ts h = tt
  publish_loop-HasKey n (e ∷ es) s s' u (c, cs) (t, ts) h =
      let (v, mid, one, rest) =
        bind_returned (publish_one true calls n e) (λ v. publish_loop true calls (n + 1) es) u s s'
          h in
      (
        publish_loop-keys (n + 1) es (key_of e) mid s' u rest
            (publish_one-HasKey n e s mid v c.has_type t one),
        publish_loop-HasKey (n + 1) es mid s' u cs ts rest,
      )

publish_one_again :
    (again : PublishCalls) (n : ℕ) (e : Entity) (s : AtlasStore)
    → again.get_fails n ≡ false
    → counts_as_no e.type_name ≡ false
    → IsTrimmed e
    → HasKey s e
    → publish_one true again n e s ≡ (ok tt, s)
unfolding is_found
publish_one_again again n e s answers typed trimmed there =
    ground (arith, answers, typed, trimmed, there)

publish_loop_again :
    (again : PublishCalls) (n : ℕ) (es : List Entity) (s : AtlasStore)
    → ((k : ℕ) → again.get_fails k ≡ false)
    → All IsComplete es
    → All IsTrimmed es
    → All (HasKey s) es
    → publish_loop true again n es s ≡ (ok tt, s)
unfolding publish_loop
publish_loop_again again n [] s answers cs ts hs = refl
publish_loop_again again n (e ∷ es) s answers (c, cs) (t, ts) (h, hs) =
    let here = publish_one_again again n e s (answers n) c.has_type t h in
    let rest = publish_loop_again again (n + 1) es s answers cs ts hs in
    ap (λ x. continue x.0 (λ u. publish_loop true again (n + 1) es) x.1) here ∙ rest

-- After a publication that has succeeded and has skipped what existed, another one of the same file whose
-- GETs are answered posts nothing and succeeds, where no name has white space around it.
pub main_again :
    (calls again : PublishCalls) (doc : YamlDocument) (es : List Entity) (s s' : AtlasStore)
    → load_entities_from_yaml doc ≡ ok es
    → All IsTrimmed es
    → main true calls doc s ≡ (ok tt, s')
    → ((k : ℕ) → again.get_fails k ≡ false)
    → main true again doc s' ≡ (ok tt, s')
unfolding main
main_again calls again doc es s s' loads trimmed h answers = go (validate_entities es) refl
  where
    go : (xs : List EntityError) → validate_entities es ≡ xs → main true again doc s' ≡ (ok tt, s')
    go (x ∷ xs) invalid = absurd (ground (arith, loads, invalid, h))
    go [] valid =
        let catalog = (validate_entities-IsCatalog es).0 valid in
        let ran : publish_loop true calls 0 es s ≡ (ok tt, s') = ground (arith, loads, valid, h) in
        let again_ran =
          publish_loop_again again 0 es s' answers catalog.complete trimmed
            (publish_loop-HasKey calls 0 es s s' tt catalog.complete trimmed ran) in
        ground (arith, loads, valid, again_ran)
