-- ===== src/Runtime/Runs.antt =====
-- crates/agsv-runtime/src/service.rs: what a run of the service that succeeds went through.
use agent_supervisor.Common.{◌≡◌, refl, ap, subst, ◌∙◌, arith}
use agent_supervisor.Common.Result.{Result, ok, err}
use agent_supervisor.Common.Exec.{continue}
use agent_supervisor.Runtime.Types.{RuntimeError}
use agent_supervisor.Runtime.Store.{Store, Tx}
use agent_supervisor.Runtime.Steps.{Reach}
use agent_supervisor.Runtime.Service.{
  SessionError, Service, Served, committed, commit, session_error,
}
use agent_supervisor.Runtime.Served.{Serves}

pub session_error-ok :
    {A : Type 0} (r : Result SessionError A) {a : A} → session_error r ≡ ok a → r ≡ ok a
session_error-ok (ok a) h = ground (arith, h)
session_error-ok (err e) h = cc

module _ {W : Type 0} {A B : Type 0} (f : A → Served W B) (s : Service W) {b : B}
    {t : Service W} where
  -- What a successful run went through, after a value and after a transaction.
  pub lifted :
      (r : Result RuntimeError A)
      → continue (r, s) f ≡ (ok b, t)
      → (a : A) × (r ≡ ok a) × (f a s ≡ (ok b, t))
  unfolding continue
  lifted (ok a) h = (a, refl, h)
  lifted (err e) h = cc

  pub chained :
      (r : Result RuntimeError A × Service W)
      → continue r f ≡ (ok b, t)
      → (a : A) × (u : Service W) × (r ≡ (ok a, u)) × (f a u ≡ (ok b, t))
  unfolding continue
  chained (ok a, u) h = (a, u, refl, h)
  chained (err e, u) h = cc

  pub committing :
      (op : Tx A)
      → continue (commit op s) f ≡ (ok b, t)
      → (a : A) × (v : Store) × (op s.store ≡ ok (a, v))
        × (f a (record s { store = v }) ≡ (ok b, t))
  unfolding commit continue
  committing op h = by_result (op s.store) refl h
    where
      by_result :
          (r : Result RuntimeError (A × Store))
          → op s.store ≡ r
          → continue (committed r s) f ≡ (ok b, t)
          → (a : A) × (v : Store) × (op s.store ≡ ok (a, v))
            × (f a (record s { store = v }) ≡ (ok b, t))
      by_result (ok (a, v)) is g = (a, v, is, g)
      by_result (err e) is g = cc

pub Serves-Reach :
    {W A : Type 0} {s : Service W} {r : Result RuntimeError A × Service W} {a : A} {t : Service W}
    → Serves s r
    → r ≡ (ok a, t)
    → Reach s.store t.store
Serves-Reach {s = s} m h =
    subst (λ (x : Service _). Reach s.store x.store) (ap (λ x. x.1) h)
      (m.reached s.store Reach.here)

pub commit-ok :
    {W A : Type 0} (op : Tx A) (s : Service W) {a : A} {t : Service W}
    → commit op s ≡ (ok a, t)
    → op s.store ≡ ok (a, t.store)
unfolding commit
commit-ok {A = A} op s {a} {t} h = by_result (op s.store) refl h
  where
    by_result :
        (r : Result RuntimeError (A × Store))
        → op s.store ≡ r
        → committed r s ≡ (ok a, t)
        → op s.store ≡ ok (a, t.store)
    by_result (ok (b, v)) is g = is ∙ ground (arith, g)
    by_result (err e) is g = cc
