-- ===== src/Redact.antt =====
-- src/utils/redact.rs: what is taken out of a text before it is logged.
use Prim.Native.Char.{Char, code}
use Prim.Native.String.{len, ◌++◌ as str_append}
use text.Mathlib.Text.{◌==◌ as str_eq}
use legaltech_contract_autom.Common.{
  String, Bool, true, false, ◌&&◌, ◌||◌, ◌==◌, leb, Option, none, some, ◌≡◌, refl, ap,
  if◌then◌else◌, List, [], ◌∷◌, ◌++◌,
}
use legaltech_contract_autom.Common.Texts.{
  is_empty, push, split_whitespace, split_once, ends_with, to_ascii_lowercase, is_one_of,
}

abbrev pub sensitive_keys : List String
sensitive_keys =
    "password" ∷ "passwd" ∷ "pwd" ∷ "secret" ∷ "client_secret" ∷ "token" ∷ "access_token"
    ∷ "refresh_token" ∷ "id_token" ∷ "api_key" ∷ "apikey" ∷ "api-key" ∷ "authorization" ∷ "cookie"
    ∷ "set-cookie" ∷ "private_key" ∷ []

abbrev pub redacted : String
redacted = "<redacted>"

abbrev pub is_bearer : String → Bool
is_bearer token = str_eq (to_ascii_lowercase token) "bearer"

-- &lower[..lower.len() - 1], where the last character is one byte.
unfoldable pub without_last : String → String
without_last String.[] = ""
without_last (String.◌∷◌ ch s) =
    let rest = without_last s in if is_empty s then "" else String.◌∷◌ ch rest

-- A sensitive name with a colon or an equals sign after it.
unfoldable pub is_key : String → Bool
unfolding without_last ends_with to_ascii_lowercase
is_key token =
    (ends_with token ":" || ends_with token "=")
    && leb 2 (len (to_ascii_lowercase token))
    && is_one_of sensitive_keys (without_last (to_ascii_lowercase token))

-- char::is_ascii_alphanumeric, an underscore or a dash.
abbrev pub is_name_char : Char → Bool
is_name_char ch =
    let c = code ch in
    leb b'0' c && leb c b'9'
    || leb b'a' c && leb c b'z'
    || leb b'A' c && leb c b'Z'
    || c == b'_'
    || c == b'-'

-- What follows the last character that is not one of a name.
unfoldable pub segment_from : (seen : String) → String → String
segment_from seen String.[] = seen
segment_from seen (String.◌∷◌ ch s) = segment_from (if is_name_char ch then push seen ch else "") s

abbrev inline_parts : (sep : String) → Option (String × String) → Option String
inline_parts sep none = none
inline_parts sep (some (key, value)) =
    if is_one_of sensitive_keys (segment_from "" (to_ascii_lowercase key))
    then some (str_append (str_append key sep) redacted)
    else none

abbrev or_else_redact : Option String → Option String → String → String
or_else_redact (some r) second token = r
or_else_redact none (some r) token = r
or_else_redact none none token = token

-- `<key>=<value>`, then `<key>:<value>`, in a larger token.
unfoldable pub inline_redacted : String → String
unfolding segment_from split_once
inline_redacted token =
    or_else_redact (inline_parts "=" (split_once b'=' token))
      (inline_parts ":" (split_once b':' token)) token

-- What is written for a token, and whether the next one is a secret.
unfoldable pub step : (next_is_secret : Bool) → String → String × Bool
unfolding is_key inline_redacted
step next_is_secret token =
    if next_is_secret
    then (redacted, is_bearer token)
    else if is_bearer token || is_key token
    then (token, true)
    else (inline_redacted token, false)

unfoldable pub redact_tokens : (next_is_secret : Bool) → List String → List String
unfolding step
redact_tokens next_is_secret [] = []
redact_tokens next_is_secret (token ∷ tokens) =
    let (written, next) = step next_is_secret token in written ∷ redact_tokens next tokens

-- With a space before each.
unfoldable pub spaced : List String → String
spaced [] = ""
spaced (t ∷ ts) = str_append " " (str_append t (spaced ts))

unfoldable pub join : List String → String
unfolding spaced
join [] = ""
join (t ∷ ts) = str_append t (spaced ts)

unfoldable pub redact_secrets : String → String
unfolding redact_tokens join split_whitespace
redact_secrets input = join (redact_tokens false (split_whitespace input))

-- Whether a token after these is a secret.
unfoldable pub pending_after : (next_is_secret : Bool) → List String → Bool
unfolding step
pending_after next_is_secret [] = next_is_secret
pending_after next_is_secret (token ∷ tokens) = pending_after (step next_is_secret token).1 tokens

redact_tokens-hides :
    (flag : Bool) (before after : List String) (key secret other : String)
    → pending_after flag before ≡ false
    → (is_bearer key || is_key key) ≡ true
    → is_bearer secret ≡ is_bearer other
    → redact_tokens flag (before ++ key ∷ secret ∷ after)
      ≡ redact_tokens flag (before ++ key ∷ other ∷ after)
unfolding redact_tokens pending_after step
redact_tokens-hides flag [] after key secret other p k same = rw (p, k, same) refl
redact_tokens-hides flag (t ∷ ts) after key secret other p k same =
    ap (λ rest. (step flag t).0 ∷ rest)
      (redact_tokens-hides (step flag t).1 ts after key secret other p k same)

-- The token after `Bearer` or after a sensitive name with its sign does not show in the output: two
-- texts that differ in it alone are written alike, provided that the name is not itself replaced as
-- the secret of a name before it, and that both or neither of the tokens are `Bearer` again.
pub redact_secrets-hides :
    (input input' : String) (before after : List String) (key secret other : String)
    → split_whitespace input ≡ before ++ key ∷ secret ∷ after
    → split_whitespace input' ≡ before ++ key ∷ other ∷ after
    → pending_after false before ≡ false
    → (is_bearer key || is_key key) ≡ true
    → is_bearer secret ≡ is_bearer other
    → redact_secrets input ≡ redact_secrets input'
unfolding redact_secrets
redact_secrets-hides input input' before after key secret other e e' p k same =
    rw (e, e') (ap join (redact_tokens-hides false before after key secret other p k same))
