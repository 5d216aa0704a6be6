-- ===== src/Common/Exec.antt =====
-- Methods on `&mut self` that may fail. What was written before a failure stays written, so the
-- state comes back beside the error too.
use mathlib.Core.Path.{◌≡◌}
use mathlib.Core.Option.{Option, none, some}
use agent_supervisor.Common.Result.{Result, ok, err}

abbrev pub Exec {ℓ} : Type ℓ → Type ℓ → Type ℓ → Type ℓ
Exec S E A = S → Result E A × S

module _ {ℓ} {S E A : Type ℓ} where
  abbrev pub pure : A → Exec S E A
  pure a s = (ok a, s)

  -- `?` on a value that the state does not enter.
  abbrev pub lift : Result E A → Exec S E A
  lift r s = (r, s)

  -- `?` on the result of a method on `&self`.
  abbrev pub asks : (S → Result E A) → Exec S E A
  asks f s = (f s, s)

  abbrev pub gets : (S → A) → Exec S E A
  gets f s = (ok (f s), s)

module _ {ℓ} {S E : Type ℓ} where
  abbrev pub modify : (S → S) → Exec S E (Unit {ℓ})
  modify f s = (ok tt, f s)

module _ {ℓ} {S E A B : Type ℓ} where
  unfoldable pub continue : Result E A × S → (A → Exec S E B) → Result E B × S
  continue (ok a, s) f = f a s
  continue (err e, s) f = (err e, s)

  infixl 5 ◌>>=◌ ◌>>◌
  abbrev pub ◌>>=◌ : Exec S E A → (A → Exec S E B) → Exec S E B
  ◌>>=◌ m f s = continue (m s) f

  abbrev pub ◌>>◌ : Exec S E A → Exec S E B → Exec S E B
  m >> k = m >>= λ _. k

-- `Outcome s Q r`: `r` is a success with `Q` of its value and state, or a failure that left `s`.
module _ {ℓ} {S E A : Type ℓ} where
  abbrev pub Outcome : S → (A → S → Type ℓ) → Result E A × S → Type ℓ
  Outcome s Q (ok a, t) = Q a t
  Outcome s Q (err e, t) = t ≡ s

module _ {ℓ} {S E : Type ℓ} where
  abbrev pub get : Exec S E S
  get s = (ok s, s)

-- An early `return Ok(a)`.
abbrev pub return_some {ℓ} : {S E A : Type ℓ} → Option A → Exec S E A → Exec S E A
return_some (some a) rest = pure a
return_some none rest = rest
