-- ===== src/Auth/Validation.antt =====
-- src/auth/validation.rs: the rules for e-mail addresses, names and passwords.
use Prim.Native.String.{len, ◌++◌ as str_append}
use legaltech_contract_autom.Common.{
  ℕ, String, not, ◌||◌, Option, none, some, ltb, if◌then◌else◌, Result, ok, err, show,
}
use legaltech_contract_autom.Common.Texts.{
  trim, is_empty, any_char, is_whitespace, contains, split_once, char_count, to_ascii_lowercase,
}
use legaltech_contract_autom.Errors.{AppError, validation}

abbrev pub max_email_len : ℕ
max_email_len = 254

abbrev pub max_full_name_len : ℕ
max_full_name_len = 200

abbrev pub max_password_len : ℕ
max_password_len = 1024

abbrev pub min_password_len : ℕ
min_password_len = 12

unfoldable pub normalize_email : String → String
unfolding trim to_ascii_lowercase
normalize_email raw = to_ascii_lowercase (trim raw)

-- What follows the split at the first @.
unfoldable pub validate_parts : Option (String × String) → Result AppError (Unit {0})
validate_parts none = err (validation "email must contain an `@`")
validate_parts (some (name, domain)) =
    if is_empty name
    then err (validation "email local part must not be empty")
    else if is_empty domain || not (contains domain ".")
    then err (validation "email domain must contain a dot")
    else ok tt

unfoldable pub validate_email : String → Result AppError (Unit {0})
unfolding validate_parts
validate_email email =
    if is_empty email
    then err (validation "email must not be empty")
    else if ltb max_email_len (len email)
    then err (
        validation
          (str_append (str_append "email must be at most " (show max_email_len)) " characters"))
    else if any_char is_whitespace email
    then err (validation "email must not contain whitespace")
    else validate_parts (split_once b'@' email)

unfoldable pub validate_full_name : String → Result AppError (Unit {0})
unfolding trim
validate_full_name name =
    let trimmed = trim name in
    if is_empty trimmed
    then err (validation "full_name must not be empty")
    else if ltb max_full_name_len (len trimmed)
    then err (
        validation (
          str_append (str_append "full_name must be at most " (show max_full_name_len))
            " characters"))
    else ok tt

unfoldable pub validate_password : String → Result AppError (Unit {0})
validate_password password =
    if is_empty password
    then err (validation "password must not be empty")
    else if ltb (char_count password) min_password_len
    then err (
        validation (
          str_append (str_append "password must be at least " (show min_password_len))
            " characters"))
    else if ltb max_password_len (len password)
    then err (
        validation
          (str_append (str_append "password must be at most " (show max_password_len)) " bytes"))
    else ok tt
