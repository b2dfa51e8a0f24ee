-- ===== src/Config/Parse.antt =====
-- src/config/mod.rs: the readers of one variable.
use Prim.Native.String.{◌++◌ as str_append}
use mathlib.Core.Option.{map as map_option}
use legaltech_contract_autom.Common.{
  ℕ, ℤ, ◌^◌, ◌-◌, String, Bool, true, false, Option, none, some, if◌then◌else◌, Result, ok, err, [],
  ◌∷◌,
}
use legaltech_contract_autom.Common.Texts.{
  trim, is_empty, is_one_of, parse_unsigned, parse_i64, to_ascii_lowercase,
}

pub data ConfigError : Type 0 where
  missing : (name : String) → ConfigError
  invalid : (name reason : String) → ConfigError

abbrev pub Lookup : Type 0
Lookup = String → Option String

-- `{raw}` is not a valid {kind}
abbrev pub not_valid : String → String → String
not_valid raw kind = str_append "`" (str_append raw (str_append "` is not a valid " kind))

abbrev pub parsed : {A : Type 0} → (name kind raw : String) → Option A → Result ConfigError A
parsed name kind raw none = err (invalid name (not_valid raw kind))
parsed name kind raw (some a) = ok a

-- A number with a largest value, or its default.
unfoldable pub parse_number :
    (kind : String) (most : ℕ) → Lookup → (name : String) (default : ℕ) → Result ConfigError ℕ
parse_number kind most lookup name default = elim (lookup name) [
  | none ↦ ok default
  | some raw ↦ parsed name kind raw (parse_unsigned most raw)
]

unfoldable pub parse_u32 : Lookup → (name : String) (default : ℕ) → Result ConfigError ℕ
unfolding parse_number
parse_u32 = parse_number "u32" (2 ^ 32 - 1)

unfoldable pub parse_u64 : Lookup → (name : String) (default : ℕ) → Result ConfigError ℕ
unfolding parse_number
parse_u64 = parse_number "u64" (2 ^ 64 - 1)

-- usize has 64 bits.
unfoldable pub parse_usize : Lookup → (name : String) (default : ℕ) → Result ConfigError ℕ
unfolding parse_number
parse_usize = parse_number "usize" (2 ^ 64 - 1)

unfoldable pub parse_i64_or : Lookup → (name : String) (default : ℤ) → Result ConfigError ℤ
parse_i64_or lookup name default = elim (lookup name) [
  | none ↦ ok default
  | some raw ↦ parsed name "i64" raw (parse_i64 raw)
]

abbrev bool_of : (name v : String) → Result ConfigError Bool
bool_of name v =
    if is_one_of ("1" ∷ "true" ∷ "yes" ∷ "on" ∷ []) v
    then ok true
    else if is_one_of ("0" ∷ "false" ∷ "no" ∷ "off" ∷ []) v
    then ok false
    else err
        (invalid name (str_append "`" (str_append v "` is not a boolean (use 1/0, true/false)")))

unfoldable pub parse_bool : Lookup → (name : String) (default : Bool) → Result ConfigError Bool
parse_bool lookup name default = elim (lookup name) [
  | none ↦ ok default
  | some raw ↦ bool_of name (to_ascii_lowercase (trim raw))
]

-- .filter(|v| !v.is_empty())
abbrev pub non_empty : Option String → Option String
non_empty none = none
non_empty (some v) = if is_empty v then none else some v

-- A variable that is trimmed, and absent when it is blank.
unfoldable pub trimmed : Lookup → String → Option String
trimmed lookup name = non_empty (map_option trim (lookup name))

-- An early return of an error about the variable unless the test holds.
abbrev pub ensure : {A : Type 0} → Bool → (name reason : String) → A → Result ConfigError A
ensure test name reason a = if test then ok a else err (invalid name reason)
