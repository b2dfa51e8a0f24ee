-- ===== src/Examples/Redact.antt =====
-- Redaction at concrete inputs.
use native.Mathlib.Decide.{dec_lt}
use legaltech_contract_autom.Common.{◌≡◌, refl, [], ◌∷◌}
use legaltech_contract_autom.Common.Texts.{split_whitespace, is_one_of}
use legaltech_contract_autom.Redact.{
  redact_secrets, redact_secrets-hides, pending_after, step, is_key, inline_redacted,
}

redacts_inline :
    redact_secrets "GET /v1?api_key=abc Bearer xyz end"
    ≡ "GET /v1?api_key=<redacted> Bearer <redacted> end"
unfolding redact_secrets step is_key inline_redacted dec_lt is_one_of
redacts_inline = refl

-- The value of a name that is itself the value of another is written.
redacts_once : redact_secrets "password: token: abc" ≡ "password: <redacted> abc"
unfolding redact_secrets step is_key inline_redacted dec_lt is_one_of
redacts_once = refl

redact_secrets-hides_example :
    redact_secrets "login failed password: hunter2 for ada"
    ≡ redact_secrets "login failed password: letmein for ada"
unfolding split_whitespace pending_after is_key dec_lt is_one_of
redact_secrets-hides_example =
    redact_secrets-hides "login failed password: hunter2 for ada"
      "login failed password: letmein for ada" ("login" ∷ "failed" ∷ []) ("for" ∷ "ada" ∷ [])
      "password:" "hunter2" "letmein" refl refl refl refl refl
