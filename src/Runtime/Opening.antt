-- ===== src/Runtime/Opening.antt =====
-- crates/agsv-runtime/src/store.rs and types.rs: what opening the database goes by.
use text.Mathlib.TextEquality.{eq_iff}
use agent_supervisor.Common.{
  String, ℕ, zero, suc, ◌+◌, ◌-◌, ◌≤◌, ◌<◌, ◌≡◌, refl, ap, sym, ◌∙◌, ◌↔◌, inl, inr, true, false,
  ◌&&◌, Option, some, List, [], ◌∷◌, ltb, arith, Bool-cases,
}
use agent_supervisor.Common.Lists.{any}
use agent_supervisor.Common.Result.{Result, ok, err, Result-cases}
use agent_supervisor.Runtime.Table.{I64, i64_zero, i64_one}
use agent_supervisor.Runtime.Types.{ActorRole, RuntimeError}
use agent_supervisor.Runtime.Schema.{
  after_attempt, is_sqlite_lock_error, initialization_retries, attempts_from, retry_initialization,
  current_schema_version, last_or, count_up, same_versions, validate_versions, role_as_str,
  role_from_str,
}

module _ {S T : Type 0} (operation : S → Result RuntimeError T × S) where
  -- The state that a number of calls leave.
  unfoldable pub called : ℕ → S → S
  called zero s = s
  called (suc n) s = called n (operation s).1

  -- The attempt that decides: those before it failed on a lock, and it did not, or it is the last.
  pub record Decided (s : S) : Type 0 where
    pub calls : ℕ
    pub few : calls < initialization_retries
    pub retried :
        (k : ℕ)
        → k < calls
        → (e : RuntimeError) × ((operation (called k s)).0 ≡ err e)
          × (is_sqlite_lock_error e ≡ true)
    pub result :
        retry_initialization operation s
        ≡ (some (operation (called calls s)).0, (operation (called calls s)).1)
    pub settled :
        (e : RuntimeError)
        → (operation (called calls s)).0 ≡ err e
        → is_sqlite_lock_error e ≡ true
        → calls + 1 ≡ initialization_retries

  record From (left attempt : ℕ) (s : S) : Type 0 where
    calls : ℕ
    few : calls < left
    retried :
        (k : ℕ)
        → k < calls
        → (e : RuntimeError) × ((operation (called k s)).0 ≡ err e)
          × (is_sqlite_lock_error e ≡ true)
    result :
        attempts_from operation left attempt s
        ≡ (some (operation (called calls s)).0, (operation (called calls s)).1)
    settled :
        (e : RuntimeError)
        → (operation (called calls s)).0 ≡ err e
        → is_sqlite_lock_error e ≡ true
        → calls + 1 ≡ left

  final :
      (attempt : ℕ) (r : Result RuntimeError T × S) (again : Option (Result RuntimeError T) × S)
      → ((e : RuntimeError)
          → r.0 ≡ err e
          → (ltb (attempt + 1) initialization_retries && is_sqlite_lock_error e) ≡ false)
      → after_attempt operation attempt r again ≡ (some r.0, r.1)
  final attempt (ok value, s) again stop = refl
  final attempt (err failure, s) again stop = rw (stop failure refl) refl

  continued :
      (attempt : ℕ) (r : Result RuntimeError T × S) (again : Option (Result RuntimeError T) × S)
      {e : RuntimeError}
      → r.0 ≡ err e
      → (ltb (attempt + 1) initialization_retries && is_sqlite_lock_error e) ≡ true
      → after_attempt operation attempt r again ≡ again
  continued attempt (ok value, s) again h go = cc
  continued attempt (err failure, s) again h go = ground (arith, h, go)

  -- No attempt follows the first.
  From-first :
      (left attempt : ℕ) (s : S)
      → ((e : RuntimeError)
          → (operation s).0 ≡ err e
          → (ltb (attempt + 1) initialization_retries && is_sqlite_lock_error e) ≡ false)
      → ((e : RuntimeError) → (operation s).0 ≡ err e → is_sqlite_lock_error e ≡ true → left ≡ 0)
      → From (suc left) attempt s
  unfolding called attempts_from
  From-first left attempt s stop last = record {
    calls = 0;
    few = omega arith;
    retried = λ k h. absurd (omega (arith, h));
    result = final attempt (operation s) _ stop;
    settled = λ e h lock. omega (arith, last e h lock);
  }

  -- One attempt before those that follow.
  From-next :
      (left attempt : ℕ) (s : S) {e : RuntimeError}
      → (operation s).0 ≡ err e
      → is_sqlite_lock_error e ≡ true
      → ltb (attempt + 1) initialization_retries ≡ true
      → From left (attempt + 1) (operation s).1
      → From (suc left) attempt s
  unfolding called attempts_from
  From-next left attempt s {e} h lock more rest = record {
    calls = suc rest.calls;
    few = omega (arith, rest.few);
    retried = earlier;
    result = continued attempt (operation s) _ h (rw (more, lock) refl) ∙ rest.result;
    settled = λ f k l. omega (arith, rest.settled f k l);
  }
    where
      earlier :
          (k : ℕ)
          → k < suc rest.calls
          → (f : RuntimeError) × ((operation (called k s)).0 ≡ err f)
            × (is_sqlite_lock_error f ≡ true)
      earlier zero n = (e, h, lock)
      earlier (suc k) n = rest.retried k (omega (arith, n))

  From-left :
      (left attempt : ℕ) (s : S)
      → attempt + suc left ≡ initialization_retries
      → From (suc left) attempt s
  From-left zero attempt s n = From-first 0 attempt s (λ e h. ground (arith, n)) (λ e h lock. refl)
  From-left (suc left) attempt s n = elim (Result-cases (operation s).0) [
    | inl (value, h) ↦
        From-first (suc left) attempt s (λ e k. ground (arith, h, k))
          (λ e k lock. ground (arith, h, k))
    | inr (failure, h) ↦ elim (Bool-cases (is_sqlite_lock_error failure)) [
      | inl lock ↦
          From-next (suc left) attempt s h lock (ground (arith, n))
            (From-left left (attempt + 1) (operation s).1 (omega (arith, n)))
      | inr miss ↦
          From-first (suc left) attempt s (λ e k. ground (arith, h, k, miss))
            (λ e k lock. ground (arith, h, k, miss, lock))
    ]
  ]

  -- A retried step of opening the database, which makes two such steps, returns after at most
  -- eight attempts of that step, with the result of the last one made: all before it failed on a
  -- lock, and it did not, or it is the eighth.
  pub retry_initialization-Decided : (s : S) → Decided s
  unfolding retry_initialization
  retry_initialization-Decided s =
      let f = From-left 7 0 s (omega arith) in
      record {
        calls = f.calls;
        few = f.few;
        retried = f.retried;
        result = f.result;
        settled = f.settled;
      }

versions_same : (vs ws : List I64) → same_versions vs ws ≡ true → vs ≡ ws
unfolding same_versions
versions_same [] [] h = refl
versions_same [] (w ∷ ws) h = cc
versions_same (v ∷ vs) [] h = cc
versions_same (v ∷ vs) (w ∷ ws) h = ground (arith, versions_same vs ws)

versions_short : (n : ℕ) → any (ltb current_schema_version) (count_up i64_one n) ≡ false → n ≤ 2
unfolding count_up
versions_short zero h = omega arith
versions_short (suc zero) h = omega arith
versions_short (suc (suc zero)) h = omega arith
versions_short (suc (suc (suc n))) h = ground arith

accepted-versions :
    (versions : List I64)
    → validate_versions versions ≡ ok tt
    → (n : ℕ) × (n ≤ 2) × (versions ≡ count_up i64_one n)
unfolding validate_versions
accepted-versions versions h =
    let n = last_or i64_zero versions - i64_zero in
    let same = versions_same versions (count_up i64_one n) (ground (arith, h)) in
    let new : any (ltb current_schema_version) versions ≡ false = ground (arith, h) in
    (n, versions_short n (ap (any (ltb current_schema_version)) (sym same) ∙ new), same)

versions-accepted : (n : ℕ) → n ≤ 2 → validate_versions (count_up i64_one n) ≡ ok tt
unfolding validate_versions count_up same_versions
versions-accepted zero h = refl
versions-accepted (suc zero) h = refl
versions-accepted (suc (suc zero)) h = refl
versions-accepted (suc (suc (suc n))) h = absurd (omega (arith, h))

-- A migration history is accepted exactly when it is the versions from 1 up to at most 2.
pub validate_versions-accepts :
    (versions : List I64)
    → (validate_versions versions ≡ ok tt) ↔ ((n : ℕ) × (n ≤ 2) × (versions ≡ count_up i64_one n))
validate_versions-accepts versions = (
  accepted-versions versions,
  λ (n, few, same). ap validate_versions same ∙ versions-accepted n few,
)

-- A role is read back from its text, and no other text is read as it.
pub role_from_str-role_as_str :
    (role : ActorRole) (value : String)
    → (role_from_str (role_as_str role) ≡ ok role)
      × (role_from_str value ≡ ok role → value ≡ role_as_str role)
unfolding role_from_str
role_from_str-role_as_str ActorRole.primary value =
    (refl, λ h. ground (arith, h, (eq_iff value "primary").0))
role_from_str-role_as_str ActorRole.implementation value =
    (refl, λ h. ground (arith, h, (eq_iff value "implementation").0))
