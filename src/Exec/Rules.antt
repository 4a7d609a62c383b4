-- ===== src/Exec/Rules.antt =====
-- What a chain of calls keeps of its store, from what each call keeps.
use data_ops_showcase.Exec.{◌>>=◌}
use data_ops_showcase.Prelude.{refl, arith, err, Result, ok, ◌≡◌}
use data_ops_showcase.Exec.{continue, Exec}

-- `P` holds of the store throughout, and `X` of what is raised.
module _ {S E : Type 0} (P : S → Type 0) (X : E → Type 0) where
  abbrev pub Keeps : {A : Type 0} → Exec S E A → Type 0
  Keeps m = (s : S) → P s → P (m s).1 × ((e : E) → (m s).0 ≡ err e → X e)

  -- `Q` holds where the call returns.
  abbrev pub Ensures : {A : Type 0} → (S → Type 0) → Exec S E A → Type 0
  Ensures {A} Q m =
      (s : S)
      → P s
      → P (m s).1 × ((a : A) → (m s).0 ≡ ok a → Q (m s).1) × ((e : E) → (m s).0 ≡ err e → X e)

  pub bind-Keeps :
      {A B : Type 0} (m : Exec S E A) (f : A → Exec S E B)
      → Keeps m
      → ((a : A) → Keeps (f a))
      → Keeps (m >>= f)
  bind-Keeps {A} {B} m f k kf s p = go (m s).0 (m s).1 (k s p).0 (k s p).1
    where
      go :
          (r : Result E A) (t : S)
          → P t
          → ((e : E) → r ≡ err e → X e)
          → P (continue r f t).1 × ((e : E) → (continue r f t).0 ≡ err e → X e)
      go (ok a) t q x = kf a t q
      go (err y) t q x = (q, λ e h. x e (ground (arith, h)))

  pub bind-Ensures :
      {A B : Type 0} (Q : S → Type 0) (m : Exec S E A) (f : A → Exec S E B)
      → Keeps m
      → ((a : A) → Ensures Q (f a))
      → Ensures Q (m >>= f)
  bind-Ensures {A} {B} Q m f k kf s p = go (m s).0 (m s).1 (k s p).0 (k s p).1
    where
      go :
          (r : Result E A) (t : S)
          → P t
          → ((e : E) → r ≡ err e → X e)
          → P (continue r f t).1
            × ((b : B) → (continue r f t).0 ≡ ok b → Q (continue r f t).1)
            × ((e : E) → (continue r f t).0 ≡ err e → X e)
      go (ok a) t q x = kf a t q
      go (err y) t q x = (q, λ b h. absurd (ground (arith, h)), λ e h. x e (ground (arith, h)))

-- Where a chain returns, each of its calls has returned.
pub bind_returned :
    {S E A B : Type 0} (m : Exec S E A) (f : A → Exec S E B) (b : B) (s v : S)
    → (m >>= f) s ≡ (ok b, v)
    → (a : A) × (t : S) × (m s ≡ (ok a, t)) × (f a t ≡ (ok b, v))
bind_returned {S} {E} {A} {B} m f b s v h = go (m s).0 (m s).1 refl h
  where
    go :
        (r : Result E A) (t : S)
        → m s ≡ (r, t)
        → continue r f t ≡ (ok b, v)
        → (a : A) × (t : S) × (m s ≡ (ok a, t)) × (f a t ≡ (ok b, v))
    go (ok a) t e k = (a, t, e, k)
    go (err x) t e k = absurd (ground (arith, k))
