-- ===== src/Prelude/Exec.antt =====
-- Code that changes a state and may raise. What was written before an exception stays written, so
-- the state comes back beside the error too.
use openradiusweb.Prelude.Result.{Exn, Result, ok, err}

abbrev pub Exec : Type 0 → Type 0 → Type 0
Exec S A = S → Result A × S

module _ {S A : Type 0} where
  abbrev pub pure : A → Exec S A
  pure a s = (ok a, s)

  abbrev pub raise : Exn → Exec S A
  raise e s = (err e, s)

  abbrev pub lift : Result A → Exec S A
  lift r s = (r, s)

  abbrev pub gets : (S → A) → Exec S A
  gets f s = (ok (f s), s)

-- `try: … except Exception as e: …`.
module _ {S A : Type 0} where
  abbrev pub handle : Result A → (Exn → Exec S A) → Exec S A
  handle (ok a) handler s = (ok a, s)
  handle (err e) handler s = handler e s

  abbrev pub catch : Exec S A → (Exn → Exec S A) → Exec S A
  catch m handler s = handle (m s).0 handler (m s).1

abbrev pub modify : {S : Type 0} → (S → S) → Exec S (Unit {0})
modify f s = (ok tt, f s)

module _ {S A B : Type 0} where
  abbrev pub continue : Result A → (A → Exec S B) → Exec S B
  continue (ok a) f s = f a s
  continue (err e) f s = (err e, s)

  infixl 5 ◌>>=◌ ◌>>◌
  abbrev pub ◌>>=◌ : Exec S A → (A → Exec S B) → Exec S B
  ◌>>=◌ m f s = continue (m s).0 f (m s).1

  abbrev pub ◌>>◌ : Exec S A → Exec S B → Exec S B
  m >> n = m >>= λ _. n
