-- ===== src/Common/Texts.antt =====
-- The methods of Rust's str that the program calls. `len` counts UTF-8 bytes, `count` characters.
pub mod Normal
use Prim.Native.Nat.{ℕ, zero, suc, ◌^◌, ◌-◌, ◌+◌, ◌*◌, ◌<◌}
use mathlib.Core.Option.{Option, none, some}
use Prim.Native.Char.{Char, char, code, IsScalar}
use mathlib.Core.Logic.{dite}
use native.Mathlib.Decide.{dec_lt}
use native.Mathlib.Omega.{arith}
use mathlib.Core.Option.{map as map_option}
use Prim.Native.String
use Prim.Native.String.{String, [], ◌∷◌}
use text.Mathlib.Text.{◌==◌ as str_eq, starts_with}
use mathlib.Core.Bool.{Bool, true, false, not, ◌&&◌, ◌||◌}
use mathlib.Core.List.{List}
use legaltech_contract_autom.Common.Int.{ℤ, pos, negsuc}
use legaltech_contract_autom.Common.Tests.{ltb, leb, ◌==◌, if◌then◌else◌}

-- char::is_whitespace: the Unicode property White_Space.
unfoldable pub is_whitespace : Char → Bool
is_whitespace ch =
    let c = code ch in
    leb 9 c && leb c 13
    || c == 32
    || c == 133
    || c == 160
    || c == 5760
    || leb 8192 c && leb c 8202
    || c == 8232
    || c == 8233
    || c == 8239
    || c == 8287
    || c == 12288

-- char::is_control: the Unicode category Cc.
unfoldable pub is_control : Char → Bool
is_control ch = let c = code ch in ltb c 32 || leb 127 c && leb c 159

unfoldable pub is_ascii_digit : Char → Bool
is_ascii_digit ch = let c = code ch in leb b'0' c && leb c b'9'

abbrev pub is_empty : String → Bool
is_empty s = str_eq s ""

abbrev pub push : String → Char → String
push s ch = String.◌++◌ s (ch ∷ [])

unfoldable pub trim_start : String → String
unfolding is_whitespace
trim_start [] = ""
trim_start (ch ∷ s) = if is_whitespace ch then trim_start s else ch ∷ s

-- A white character goes if nothing is left behind it.
unfoldable pub trim_end : String → String
unfolding is_whitespace
trim_end [] = ""
trim_end (ch ∷ s) =
    let rest = trim_end s in if is_whitespace ch && is_empty rest then "" else ch ∷ rest

unfoldable pub trim : String → String
unfolding trim_start trim_end
trim s = trim_start (trim_end s)

unfoldable pub any_char : (Char → Bool) → String → Bool
any_char p [] = false
any_char p (ch ∷ s) = p ch || any_char p s

unfoldable pub contains : String → String → Bool
contains [] part = str_eq part ""
contains (ch ∷ s) part = starts_with (ch ∷ s) part || contains s part

tokens_from : String → String → List String
unfolding is_whitespace
tokens_from word [] = if is_empty word then List.[] else List.◌∷◌ word List.[]
tokens_from word (ch ∷ s) =
    let rest = tokens_from (if is_whitespace ch then "" else push word ch) s in
    if is_whitespace ch && not (is_empty word) then List.◌∷◌ word rest else rest

unfoldable pub split_whitespace : String → List String
unfolding tokens_from
split_whitespace s = tokens_from "" s

unfoldable pub is_one_of : List String → String → Bool
is_one_of List.[] s = false
is_one_of (List.◌∷◌ t ts) s = str_eq t s || is_one_of ts s

unfoldable pub all_chars : (Char → Bool) → String → Bool
all_chars p [] = true
all_chars p (ch ∷ s) = p ch && all_chars p s

digits_value : ℕ → String → ℕ
digits_value acc [] = acc
digits_value acc (ch ∷ s) = digits_value (acc * 10 + (code ch - b'0')) s

-- A leading plus sign is accepted before the digits.
strip_plus : String → String
strip_plus [] = ""
strip_plus (ch ∷ s) = if code ch == b'+' then s else ch ∷ s

-- str::parse for an unsigned type with largest value `most`.
unfoldable pub parse_unsigned : (most : ℕ) → String → Option ℕ
unfolding all_chars digits_value strip_plus is_ascii_digit
parse_unsigned most s =
    let t = strip_plus s in
    if is_empty t
    then none
    else if not (all_chars is_ascii_digit t)
    then none
    else if leb (digits_value 0 t) most
    then some (digits_value 0 t)
    else none

-- str::ends_with: some suffix is the text.
unfoldable pub ends_with : String → String → Bool
ends_with [] part = str_eq part ""
ends_with (ch ∷ s) part = str_eq (ch ∷ s) part || ends_with s part

pub IsScalar_small : (n : ℕ) → n < 55296 → IsScalar n
IsScalar_small n h = ground arith

-- char::to_ascii_lowercase
unfoldable pub lower_char : Char → Char
unfolding IsScalar_small
lower_char (char n valid) =
    dite (dec_lt n 65) (λ below. char n valid)
      (λ above.
        dite (dec_lt n 91) (λ upper. char (n + 32) (IsScalar_small (n + 32) (omega arith)))
          (λ lower. char n valid))

-- str::to_ascii_lowercase
unfoldable pub to_ascii_lowercase : String → String
unfolding lower_char
to_ascii_lowercase [] = ""
to_ascii_lowercase (ch ∷ s) = lower_char ch ∷ to_ascii_lowercase s

-- str::split_once by a character.
unfoldable pub split_once : (at : ℕ) → String → Option (String × String)
split_once at [] = none
split_once at (ch ∷ s) =
    let rest = split_once at s in
    if code ch == at then some ("", s) else map_option (λ p. (ch ∷ p.0, p.1)) rest

-- str::chars().count()
unfoldable pub char_count : String → ℕ
char_count [] = 0
char_count (ch ∷ s) = suc (char_count s)

-- str::strip_prefix
unfoldable pub strip_prefix : (part : String) → String → Option String
strip_prefix [] s = some s
strip_prefix (p ∷ part) [] = none
strip_prefix (p ∷ part) (ch ∷ s) =
    let rest = strip_prefix part s in if code p == code ch then rest else none

-- str::split by a character: the text before the first one, and the other parts.
split_from : (at : ℕ) → String → String × List String
split_from at [] = ("", List.[])
split_from at (ch ∷ s) =
    let rest = split_from at s in
    if code ch == at then ("", List.◌∷◌ rest.0 rest.1) else (ch ∷ rest.0, rest.1)

unfoldable pub split : (at : ℕ) → String → List String
unfolding split_from
split at s = let parts = split_from at s in List.◌∷◌ parts.0 parts.1

minus : ℕ → ℤ
minus zero = pos 0
minus (suc n) = negsuc n

-- str::parse for i64: an optional sign and digits.
unfoldable pub parse_i64 : String → Option ℤ
unfolding parse_unsigned minus
parse_i64 [] = none
parse_i64 (ch ∷ s) =
    if code ch == b'-'
    then (if starts_with s "+" then none else map_option minus (parse_unsigned (2 ^ 63) s))
    else map_option pos (parse_unsigned (2 ^ 63 - 1) (ch ∷ s))
