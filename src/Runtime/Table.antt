-- ===== src/Runtime/Table.antt =====
-- crates/agsv-runtime/src/store.rs: the SQL that the statements of the store use, over a table as
-- the list of its rows, and the i64 of its columns.
use Prim.Native.Nat.{ℕ, suc, ◌+◌, ◌-◌, ◌%◌}
use Prim.Native.String.{compare}
use text.Mathlib.Text.{◌==◌ as str_eq, is_lt}
use agent_supervisor.Common.{
  String, Bool, true, false, Option, none, some, List, [], ◌∷◌, ltb, leb, if◌then◌else◌, ◌==◌,
}

-- An `i64` as its distance from `i64::MIN`: comparisons are those of the distances.
abbrev pub I64 : Type 0
I64 = ℕ

abbrev pub i64_zero : I64
i64_zero = 9223372036854775808

abbrev pub i64_one : I64
i64_one = 9223372036854775809

abbrev pub i64_max : I64
i64_max = 18446744073709551615

-- `+ 1` of a release build, which wraps.
abbrev pub i64_next : I64 → I64
i64_next n = (n + 1) % 18446744073709551616

-- `i64::saturating_add`
abbrev pub saturating_add : I64 → I64 → I64
saturating_add a b = if ltb i64_max (a + b - i64_zero) then i64_max else a + b - i64_zero

-- `IS ?1` for a nullable text column, and `= ?1` for one: NULL equals nothing.
abbrev pub text_is : Option String → String → Bool
text_is none t = false
text_is (some s) t = str_eq s t

-- `<= ?1` for a nullable column, where NULL compares with nothing, and `= ?1` for one.
abbrev pub column_leb : Option I64 → I64 → Bool
column_leb none n = false
column_leb (some c) n = leb c n

abbrev pub column_is : Option I64 → I64 → Bool
column_is none n = false
column_is (some c) n = c == n

abbrev pub is_null {ℓ} : {A : Type ℓ} → Option A → Bool
is_null none = true
is_null (some a) = false

-- The order of a text column, which is that of the bytes.
abbrev pub text_lt : String → String → Bool
text_lt a b = is_lt (compare a b)

module _ {ℓ} {R : Type ℓ} where
  -- `UPDATE … SET … WHERE …`
  unfoldable pub update_where : (R → Bool) → (R → R) → List R → List R
  update_where p f [] = []
  update_where p f (r ∷ rs) = (if p r then f r else r) ∷ update_where p f rs

  -- The rows that a statement touches.
  unfoldable pub count_where : (R → Bool) → List R → ℕ
  count_where p [] = 0
  count_where p (r ∷ rs) = if p r then suc (count_where p rs) else count_where p rs

  -- `INSERT … ON CONFLICT(key) DO UPDATE`: the key's row is changed, or the new one is added.
  unfoldable pub upsert : (R → Bool) → R → (R → R) → List R → List R
  upsert p new f [] = new ∷ []
  upsert p new f (r ∷ rs) = if p r then f r ∷ rs else r ∷ upsert p new f rs

  -- `ORDER BY … LIMIT 1`: the first row that no later one comes before.
  unfoldable pub least : (R → R → Bool) → List R → Option R
  least lt [] = none
  least lt (r ∷ rs) =
      let rest = least lt rs in
      elim rest [ none ↦ some r | some m ↦ if lt m r then some m else some r ]
