-- ===== src/Exec.antt =====
-- Functions that change a store and may raise: what was committed before the exception stays.
pub mod Rules
use data_ops_showcase.Prelude.{Result, ok, err}

abbrev pub Exec : Type 0 → Type 0 → Type 0 → Type 0
Exec S E A = S → Result E A × S

module _ {S E A : Type 0} where
  abbrev pub pure : A → Exec S E A
  pure a s = (ok a, s)

  abbrev pub raise : E → Exec S E A
  raise e s = (err e, s)

  abbrev pub lift : Result E A → Exec S E A
  lift r s = (r, s)

  -- `try: m  except Exception as e: handler e`
  abbrev pub handle : (E → Exec S E A) → Result E A → Exec S E A
  handle handler (ok a) s = (ok a, s)
  handle handler (err e) s = handler e s

  abbrev pub try_except : Exec S E A → (E → Exec S E A) → Exec S E A
  try_except m handler s = let (r, s') = m s in handle handler r s'

module _ {S E A B : Type 0} where
  abbrev pub continue : Result E A → (A → Exec S E B) → Exec S E B
  continue (ok a) f s = f a s
  continue (err e) f s = (err e, s)

  infixl 5 ◌>>=◌ ◌>>◌
  abbrev pub ◌>>=◌ : Exec S E A → (A → Exec S E B) → Exec S E B
  ◌>>=◌ m f s = let (r, s') = m s in continue r f s'

  abbrev pub ◌>>◌ : Exec S E A → Exec S E B → Exec S E B
  m >> n = m >>= λ _. n
