-- ===== src/Protocol/Validation.antt =====
-- crates/agsv-protocol/src/validation.rs: bounds, and the checks that the values share. An error
-- keeps its field, its code and the limit; the sentence for people is left out.
use Prim.Native.Char.{code}
use Prim.Native.String.{count, len}
use text.Mathlib.Text.{◌==◌ as str_eq}
use text.Mathlib.TextEquality.{eq_iff}
use agent_supervisor.Common.{
  ℕ, ◌-◌, String, Bool, true, false, ◌⊎◌, ◌&&◌, ◌||◌, Option, none, some, List, [], ◌∷◌, ltb, leb,
  ◌==◌, if◌then◌else◌, ◌≡◌, Bool-cases, inl, inr,
}
use agent_supervisor.Common.Result.{Result, ok, err}

pub data ValidationCode : Type 0 where
  required invalid_format out_of_range inconsistent unsupported_version : ValidationCode

pub data ValidationUnit : Type 0 where
  characters items : ValidationUnit

pub record Limit : Type 0 where
  pub actual : ℕ
  pub maximum : ℕ
  pub overflow : ℕ
  pub unit : ValidationUnit

pub record ValidationError : Type 0 where
  pub field : List String
  pub code : ValidationCode
  pub limit : Option Limit

-- `ValidationError::new`; a field is the list of its components.
abbrev pub validation_error : String → ValidationCode → ValidationError
validation_error field code = record { field = field ∷ []; code = code; limit = none }

abbrev pub with_limit : ValidationError → ℕ → ℕ → ValidationUnit → ValidationError
with_limit e actual maximum unit = record e {
  limit =
      some
        (record { actual = actual; maximum = maximum; overflow = actual - maximum; unit = unit });
}

-- `ValidationError::at`
abbrev pub at : String → ValidationError → ValidationError
at parent e = record e { field = parent ∷ e.field }

abbrev pub max_evidence_items : ℕ
max_evidence_items = 64

abbrev pub max_acceptance_criteria : ℕ
max_acceptance_criteria = 64

abbrev pub max_request_text_characters : ℕ
max_request_text_characters = 65536

abbrev pub max_evidence_requirements : ℕ
max_evidence_requirements = 16

abbrev pub max_actor_capabilities : ℕ
max_actor_capabilities = 256

abbrev pub max_conflict_resources : ℕ
max_conflict_resources = 256

abbrev pub max_domain_entities : ℕ
max_domain_entities = 10000

abbrev pub max_deliveries : ℕ
max_deliveries = 100000

abbrev pub max_acknowledgements : ℕ
max_acknowledgements = 10000

abbrev pub max_audit_events : ℕ
max_audit_events = 200000

abbrev pub max_frame_bytes : ℕ
max_frame_bytes = 1048576

-- `char::is_whitespace`: the code points with the property White_Space.
unfoldable pub is_whitespace : ℕ → Bool
is_whitespace c =
    leb 9 c && leb c 13
    || c == 32
    || c == 133
    || c == 160
    || c == 5760
    || leb 8192 c && leb c 8202
    || c == 8232
    || c == 8233
    || c == 8239
    || c == 8287
    || c == 12288

-- `char::is_control`: the category Cc.
unfoldable pub is_control : ℕ → Bool
is_control c = leb c 31 || leb 127 c && leb c 159

abbrev pub codes : String → List ℕ
codes String.[] = []
codes (String.◌∷◌ c s) = code c ∷ codes s

all_of : (ℕ → Bool) → List ℕ → Bool
all_of p [] = true
all_of p (c ∷ cs) = p c && all_of p cs

any_of : (ℕ → Bool) → List ℕ → Bool
any_of p [] = false
any_of p (c ∷ cs) = p c || any_of p cs

last_is : (ℕ → Bool) → List ℕ → Bool
last_is p [] = false
last_is p (c ∷ []) = p c
last_is p (c ∷ (d ∷ cs)) = last_is p (d ∷ cs)

head_is : (ℕ → Bool) → List ℕ → Bool
head_is p [] = false
head_is p (c ∷ cs) = p c

-- `value.trim().is_empty()`
unfoldable pub is_blank : String → Bool
unfolding all_of is_whitespace
is_blank value = all_of is_whitespace (codes value)

-- `value.trim() != value`, for a text that is not blank.
unfoldable pub has_outer_whitespace : String → Bool
unfolding head_is last_is is_whitespace
has_outer_whitespace value =
    head_is is_whitespace (codes value) || last_is is_whitespace (codes value)

-- `value.chars().any(char::is_control)`
unfoldable pub has_control : String → Bool
unfolding any_of is_control
has_control value = any_of is_control (codes value)

unfoldable pub validate_text : String → String → ℕ → Result ValidationError (Unit {0})
unfolding is_blank
validate_text field value maximum =
    if is_blank value
    then err (validation_error field ValidationCode.required)
    else if ltb maximum (count value)
    then err (
        with_limit (validation_error field ValidationCode.out_of_range) (count value) maximum
          ValidationUnit.characters)
    else ok tt

unfoldable pub validate_count : String → ℕ → ℕ → Result ValidationError (Unit {0})
validate_count field n maximum =
    if ltb maximum n
    then err (
        with_limit (validation_error field ValidationCode.out_of_range) n maximum
          ValidationUnit.items)
    else ok tt

unfoldable pub byte_length : String → ℕ
byte_length = len

string_dec : (s t : String) → (str_eq s t ≡ true) ⊎ (str_eq s t ≡ false) → Dec (s ≡ t)
string_dec s t (inl e) = yes ((eq_iff s t).0 e)
string_dec s t (inr e) = no (λ p. cc ((eq_iff s t).1 p))

unfoldable pub String-discrete : Discrete String
unfolding string_dec Bool-cases
String-discrete s t = string_dec s t (Bool-cases (str_eq s t))
