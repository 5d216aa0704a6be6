-- ===== src/Common/Returns.antt =====
-- Hoare triples for methods on `&mut self`: what a success establishes, where a failure writes
-- nothing.
use agent_supervisor.Common.{◌≡◌, refl, subst}
use agent_supervisor.Common.Result.{Result, ok, err}
use agent_supervisor.Common.Exec.{Exec, Outcome, continue}

-- `Outcome`, as a type of its own that a search can go by.
pub record Returns {ℓ} {S E A : Type ℓ} (s : S) (Q : A → S → Type ℓ) (r : Result E A × S)
    : Type ℓ where
  pub outcome : Outcome s Q r

module _ {ℓ} {S E A : Type ℓ} {s : S} {Q : A → S → Type ℓ} where
  pub Returns-ok : {a : A} {t : S} → Q a t → Returns {E = E} s Q (ok a, t)
  Returns-ok h = record { outcome = h }

  pub Returns-err : {e : E} → Returns {A = A} s Q (err e, s)
  Returns-err = record { outcome = refl }

  -- A step that cannot fail.
  pub Returns-then :
      {B : Type ℓ} {b : B} {t : S} (f : B → Exec S E A)
      → Returns s Q (f b t)
      → Returns s Q (continue (ok b, t) f)
  unfolding continue
  Returns-then f h = h

  -- `?` on a value.
  pub Returns-try :
      {B : Type ℓ} {r : Result E B} (f : B → Exec S E A)
      → ((b : B) → r ≡ ok b → Returns s Q (f b s))
      → Returns s Q (continue (r, s) f)
  unfolding continue
  Returns-try {r = ok b} f h = h b refl
  Returns-try {r = err e} f h = record { outcome = refl }

  -- `?` on the result of another method.
  pub Returns-bind :
      {B : Type ℓ} {R : B → S → Type ℓ} {r : Result E B × S} (f : B → Exec S E A)
      → Returns s R r
      → ((b : B) (t : S) → R b t → Returns s Q (f b t))
      → Returns s Q (continue r f)
  unfolding continue
  Returns-bind {r = (ok b, t)} f m h = h b t m.outcome
  Returns-bind {r = (err e, t)} f m h = record { outcome = m.outcome }

  -- A postcondition is weakened.
  pub Returns-map :
      {R : A → S → Type ℓ} {r : Result E A × S}
      → Returns s R r
      → ((a : A) (t : S) → R a t → Q a t)
      → Returns s Q r
  Returns-map {r = (ok a, t)} m h = record { outcome = h a t m.outcome }
  Returns-map {r = (err e, t)} m h = record { outcome = m.outcome }

  -- What is read off a triple at a success, and at a failure.
  pub Returns-success : {r : Result E A × S} {a : A} {t : S} → Returns s Q r → r ≡ (ok a, t) → Q a t
  Returns-success m h = subst (Outcome s Q) h m.outcome

  pub Returns-failure :
      {r : Result E A × S} {e : E} {t : S} → Returns s Q r → r ≡ (err e, t) → t ≡ s
  Returns-failure m h = subst (Outcome s Q) h m.outcome

  -- The postcondition may also name the run itself.
  pub Returns-run :
      {r : Result E A × S} → Returns s Q r → Returns s (λ a t. (r ≡ (ok a, t)) × Q a t) r
  Returns-run {r = (ok a, t)} m = record { outcome = (refl, m.outcome) }
  Returns-run {r = (err e, t)} m = record { outcome = m.outcome }
