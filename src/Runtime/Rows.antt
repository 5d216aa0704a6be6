-- ===== src/Runtime/Rows.antt =====
-- crates/agsv-runtime/src/store.rs: what the statements of the store do to the rows of a table.
use text.Mathlib.TextEquality.{eq_iff}
use agent_supervisor.Common.{
  String, ap, ◌≡◌, refl, sym, ◌⊎◌, Bool, true, false, Option, none, some, List, [], ◌∷◌, ℕ, suc,
  arith, ◌≤◌, if◌then◌else◌, Bool-cases, Option-cases, inl, inr,
}
use mathlib.Core.List.{Memᴰ}
use agent_supervisor.Common.Lists.{any, find, filter}
use agent_supervisor.Runtime.Table.{text_is, update_where, count_where, least}

-- A nullable column that equals a text.
pub text_is-some : (o : Option String) (t : String) → text_is o t ≡ true → o ≡ some t
text_is-some none t h = cc
text_is-some (some a) t h = ap some ((eq_iff a t).0 h)

module _ {ℓ} {R : Type ℓ} where
  abbrev pub map_row : (R → R) → Option R → Option R
  map_row f none = none
  map_row f (some r) = some (f r)

  -- What an update makes of one row.
  abbrev pub updated : (R → Bool) → (R → R) → R → R
  updated p f r = if p r then f r else r

  pub updated-keeps {κ} :
      {B : Type κ} (view : R → B) (p : R → Bool) (f : R → R)
      → ((r : R) → view (f r) ≡ view r)
      → (r : R) → view (updated p f r) ≡ view r
  updated-keeps view p f keep r = elim (Bool-cases (p r)) [
    | inl hit ↦ rw hit (keep r)
    | inr miss ↦ rw miss refl
  ]

  module _ (q p : R → Bool) (f : R → R) (keep : (r : R) → q (f r) ≡ q r) where
    pub find-update_where :
        (rs : List R) → find q (update_where p f rs) ≡ map_row (updated p f) (find q rs)
    unfolding update_where
    find-update_where [] = refl
    find-update_where (r ∷ rs) = ground (arith, updated-keeps q p f keep r, find-update_where rs)

    pub count-update_where : (rs : List R) → count_where q (update_where p f rs) ≡ count_where q rs
    unfolding update_where count_where
    count-update_where [] = refl
    count-update_where (r ∷ rs) = ground (arith, updated-keeps q p f keep r, count-update_where rs)

  pub count-any : (q : R → Bool) (rs : List R) → any q rs ≡ false → count_where q rs ≡ 0
  unfolding count_where
  count-any q [] h = refl
  count-any q (r ∷ rs) h = ground (arith, count-any q rs)

  pub count-find : (q : R → Bool) (rs : List R) → find q rs ≡ none → count_where q rs ≡ 0
  unfolding count_where
  count-find q [] h = refl
  count-find q (r ∷ rs) h = ground (arith, count-find q rs)

  pub find-any : (q : R → Bool) (rs : List R) {r : R} → find q rs ≡ some r → any q rs ≡ true
  find-any q [] h = cc
  find-any q (x ∷ rs) {r} h = ground (arith, find-any q rs {r = r})

  pub find-holds : (q : R → Bool) (rs : List R) {r : R} → find q rs ≡ some r → q r ≡ true
  find-holds q [] h = cc
  find-holds q (x ∷ rs) {r} h = elim (Bool-cases (q x)) [
    | inl hit ↦ ground (arith, h, hit)
    | inr miss ↦ find-holds q rs (ground (arith, h, miss))
  ]

  -- A row that is the only one with a key is the one found under it.
  pub find-only :
      (q : R → Bool) (r : R) (rs : List R)
      → Memᴰ r rs
      → q r ≡ true
      → count_where q rs ≤ 1
      → find q rs ≡ some r
  unfolding count_where
  find-only q r [] m h n = elim m [ ]
  find-only q r (x ∷ rs) (Memᴰ.head e) h n = ground (arith, e, h)
  find-only q r (x ∷ rs) (Memᴰ.tail m) h n = elim (Bool-cases (q x)) [
    | inl hit ↦ absurd (counted r rs m h (ground (arith, n, hit)))
    | inr miss ↦ ground (arith, find-only q r rs m h (ground (arith, n, miss)), miss)
  ]
    where
      counted : (r : R) (rs : List R) → Memᴰ r rs → q r ≡ true → count_where q rs ≡ 0 → ⊥
      counted r [] m h n = elim m [ ]
      counted r (x ∷ rs) (Memᴰ.head e) h n = ground (arith, e, h, n)
      counted r (x ∷ rs) (Memᴰ.tail m) h n = counted r rs m h (ground (arith, n))

  pub count-row :
      (p : R → Bool) (rs : List R) {n : ℕ}
      → count_where p rs ≡ suc n
      → (r : R) × Memᴰ r rs × (p r ≡ true)
  unfolding count_where
  count-row p [] h = absurd (ground (arith, h))
  count-row p (r ∷ rs) {n} h = elim (Bool-cases (p r)) [
    | inl hit ↦ (r, Memᴰ.head refl, hit)
    | inr miss ↦
        let (x, member, holds) = count-row p rs {n = n} (ground (arith, h, miss)) in
        (x, Memᴰ.tail member, holds)
  ]

  pub filter-row :
      (p : R → Bool) (rs : List R) {m : R} → Memᴰ m (filter p rs) → Memᴰ m rs × (p m ≡ true)
  filter-row p [] member = elim member [ ]
  filter-row p (r ∷ rs) {m} member = kept (p r) refl (filter-row p rs) member
    where
      kept :
          (b : Bool)
          → p r ≡ b
          → (Memᴰ m (filter p rs) → Memᴰ m rs × (p m ≡ true))
          → Memᴰ m (if b then r ∷ filter p rs else filter p rs)
          → Memᴰ m (r ∷ rs) × (p m ≡ true)
      kept true hit rest (Memᴰ.head e) = (Memᴰ.head e, rw e hit)
      kept true hit rest (Memᴰ.tail n) = (Memᴰ.tail (rest n).0, (rest n).1)
      kept false miss rest n = (Memᴰ.tail (rest n).0, (rest n).1)

  pub row-filter :
      (p : R → Bool) (rs : List R) {m : R} → Memᴰ m rs → p m ≡ true → Memᴰ m (filter p rs)
  row-filter p [] member h = elim member [ ]
  row-filter p (r ∷ rs) (Memᴰ.head e) h = rw (sym e, h) (Memᴰ.head refl)
  row-filter p (r ∷ rs) {m} (Memᴰ.tail n) h = kept (p r) (row-filter p rs n h)
    where
      kept : (b : Bool) → Memᴰ m (filter p rs) → Memᴰ m (if b then r ∷ filter p rs else filter p rs)
      kept true rest = Memᴰ.tail rest
      kept false rest = rest

  module _ (lt : R → R → Bool) where
    least-next :
        (r : R) (rs : List R) {m : R}
        → least lt (r ∷ rs) ≡ some m
        → (m ≡ r) ⊎ (least lt rs ≡ some m)
    unfolding least
    least-next r rs h = ground arith

    least-row : (rs : List R) {m : R} → least lt rs ≡ some m → Memᴰ m rs
    unfolding least
    least-row [] h = cc
    least-row (r ∷ rs) h = elim (least-next r rs h) [
      | inl e ↦ Memᴰ.head e
      | inr found ↦ Memᴰ.tail (least-row rs found)
    ]

    pub least-found : (rs : List R) {x : R} → least lt rs ≡ none → Memᴰ x rs → ⊥
    unfolding least
    least-found [] h member = elim member [ ]
    least-found (r ∷ rs) h member = elim (Option-cases (least lt rs)) [
      | inl e ↦ ground arith
      | inr (k, e) ↦ ground arith
    ]

    -- By a key that the order goes by first, no row comes before the first one.
    module _ (key : R → ℕ) (before : (a b : R) → lt a b ≡ true → key a ≤ key b)
        (after : (a b : R) → lt a b ≡ false → key b ≤ key a) where
      least-head : (r : R) (rs : List R) {m : R} → least lt (r ∷ rs) ≡ some m → key m ≤ key r
      unfolding least
      least-head r rs {m} h = ground (arith, before m r)

      least-tail :
          (r : R) (rs : List R) {m n : R}
          → least lt (r ∷ rs) ≡ some m
          → least lt rs ≡ some n
          → key m ≤ key n
      unfolding least
      least-tail r rs {m} {n} h k = ground (arith, before n r, after n r)

      pub least-first : (rs : List R) {m x : R} → least lt rs ≡ some m → Memᴰ x rs → key m ≤ key x
      least-first [] h member = elim member [ ]
      least-first (r ∷ rs) {m} {x} h (Memᴰ.head e) = rw e (least-head r rs h)
      least-first (r ∷ rs) {m} {x} h (Memᴰ.tail n) = elim (Option-cases (least lt rs)) [
        | inl e ↦ absurd (least-found rs e n)
        | inr (k, e) ↦ omega (arith, least-tail r rs h e, least-first rs e n)
      ]

  pub least-only :
      (lt : R → R → Bool) (p q : R → Bool) (rs : List R) {m : R}
      → least lt (filter p rs) ≡ some m
      → (p m ≡ true → q m ≡ true)
      → count_where q rs ≤ 1
      → (p m ≡ true) × (find q rs ≡ some m)
  least-only lt p q rs {m} h is n =
      let found = filter-row p rs (least-row lt (filter p rs) h) in
      (found.1, find-only q m rs found.0 (is found.1) n)
