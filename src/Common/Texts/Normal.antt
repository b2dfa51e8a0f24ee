-- ===== src/Common/Texts/Normal.antt =====
-- Trimming and lowercasing a text a second time changes nothing.
use Prim.Native.Char.{Char, char, code}
use Prim.Native.String.{String, [], ◌∷◌}
use mathlib.Core.Logic.{dif_pos, dif_neg}
use mathlib.Core.Path.{◌≡◌, refl, sym, ap, ◌∙◌}
use mathlib.Core.Logic.{inl, inr, ◌⊎◌}
use Prim.Native.Nat.{◌+◌, ◌≤◌, ◌<◌}
use text.Mathlib.TextEquality.{eq_iff}
use native.Mathlib.Bridge.{le_prop}
use mathlib.Core.Bool.{false, ◌&&◌}
use native.Mathlib.Decide.{dec_lt}
use native.Mathlib.Omega.{arith}
use legaltech_contract_autom.Common.Tests.{Bool-cases}
use legaltech_contract_autom.Common.Texts.{
  is_whitespace, is_empty, lower_char, to_ascii_lowercase, trim_start, trim_end, trim,
}

-- A letter of the upper case moves by 32; all else stays.
lower_char-cases :
    (ch : Char)
    → (lower_char ch ≡ ch)
      ⊎ ((65 ≤ code ch) × (code ch < 91) × (code (lower_char ch) ≡ code ch + 32))
unfolding lower_char
lower_char-cases (char n valid) = elim (dec_lt n 65) [
  | yes p ↦ inl (dif_pos (dec_lt n 65) le_prop p _ _)
  | no p ↦ elim (dec_lt n 91) [
    | yes q ↦ inr (
      omega arith,
      q,
      ap code (dif_neg (dec_lt n 65) p _ _ ∙ dif_pos (dec_lt n 91) le_prop q _ _),
    )
    | no q ↦ inl (dif_neg (dec_lt n 65) p _ _ ∙ dif_neg (dec_lt n 91) q _ _)
  ]
]

lower_char_above : (ch : Char) → 91 ≤ code ch → lower_char ch ≡ ch
lower_char_above ch h = elim (lower_char-cases ch) [
  | inl e ↦ e
  | inr q ↦ absurd (omega (arith, q.1))
]

is_whitespace-lower_char : (ch : Char) → is_whitespace (lower_char ch) ≡ is_whitespace ch
unfolding is_whitespace
is_whitespace-lower_char ch = elim (lower_char-cases ch) [
  | inl e ↦ rw e refl
  | inr q ↦ rw q.2 (ground (arith, q.0, q.1))
]

lower_char-lower_char : (ch : Char) → lower_char (lower_char ch) ≡ lower_char ch
lower_char-lower_char ch = elim (lower_char-cases ch) [
  | inl e ↦ ap lower_char e
  | inr q ↦ lower_char_above (lower_char ch) (omega (arith, q.0, q.2))
]

lower-lower : (s : String) → to_ascii_lowercase (to_ascii_lowercase s) ≡ to_ascii_lowercase s
unfolding to_ascii_lowercase
lower-lower [] = refl
lower-lower (ch ∷ s) = rw (lower_char-lower_char ch, lower-lower s) refl

pub is_empty-cons : (ch : Char) (s : String) → is_empty (ch ∷ s) ≡ false
is_empty-cons ch s = elim (Bool-cases (is_empty (ch ∷ s))) [
  | inl e ↦ let same = (eq_iff (ch ∷ s) "").0 e in cc
  | inr e ↦ e
]

is_empty-lower : (s : String) → is_empty (to_ascii_lowercase s) ≡ is_empty s
unfolding to_ascii_lowercase
is_empty-lower [] = refl
is_empty-lower (ch ∷ s) =
    is_empty-cons (lower_char ch) (to_ascii_lowercase s) ∙ sym (is_empty-cons ch s)

trim_start-lower :
    (s : String) → trim_start (to_ascii_lowercase s) ≡ to_ascii_lowercase (trim_start s)
unfolding to_ascii_lowercase trim_start
trim_start-lower [] = refl
trim_start-lower (ch ∷ s) = elim (Bool-cases (is_whitespace ch)) [
  | inl e ↦ rw (is_whitespace-lower_char ch, e) (trim_start-lower s)
  | inr e ↦ rw (is_whitespace-lower_char ch, e) refl
]

trim_end-lower : (s : String) → trim_end (to_ascii_lowercase s) ≡ to_ascii_lowercase (trim_end s)
unfolding to_ascii_lowercase trim_end
trim_end-lower [] = refl
trim_end-lower (ch ∷ s) = elim (Bool-cases (is_whitespace ch && is_empty (trim_end s))) [
  | inl e ↦ rw (trim_end-lower s, is_whitespace-lower_char ch, is_empty-lower (trim_end s), e) refl
  | inr e ↦ rw (trim_end-lower s, is_whitespace-lower_char ch, is_empty-lower (trim_end s), e) refl
]

trim_start-trim_start : (s : String) → trim_start (trim_start s) ≡ trim_start s
unfolding trim_start
trim_start-trim_start [] = refl
trim_start-trim_start (ch ∷ s) = elim (Bool-cases (is_whitespace ch)) [
  | inl e ↦ rw e (trim_start-trim_start s)
  | inr e ↦ rw e (rw e refl)
]

trim_end-trim_end : (s : String) → trim_end (trim_end s) ≡ trim_end s
unfolding trim_end
trim_end-trim_end [] = refl
trim_end-trim_end (ch ∷ s) = elim (Bool-cases (is_whitespace ch && is_empty (trim_end s))) [
  | inl e ↦ rw e refl
  | inr e ↦ rw e (rw (trim_end-trim_end s, e) refl)
]

trim_end-trim_start : (s : String) → trim_end s ≡ s → trim_end (trim_start s) ≡ trim_start s
unfolding trim_start trim_end
trim_end-trim_start [] h = refl
trim_end-trim_start (ch ∷ s) h = elim (Bool-cases (is_whitespace ch)) [
  | inl e ↦ rw e (trim_end-trim_start s rest)
  | inr e ↦ rw e h
]
  where
    rest : trim_end s ≡ s
    rest = elim (Bool-cases (is_whitespace ch && is_empty (trim_end s))) [
      | inl e ↦ let h' = rw e at h in cc
      | inr e ↦ let h' = rw e at h in cc
    ]

-- Normal forms stay as they are.
pub trim-trim : (s : String) → trim (trim s) ≡ trim s
unfolding trim
trim-trim s =
    rw (trim_end-trim_start (trim_end s) (trim_end-trim_end s)) (trim_start-trim_start (trim_end s))

pub lower-trim_normal :
    (s : String)
    → to_ascii_lowercase (trim (to_ascii_lowercase (trim s))) ≡ to_ascii_lowercase (trim s)
unfolding trim
lower-trim_normal s =
    rw (trim_end-lower (trim s), trim_start-lower (trim_end (trim s)))
      (lower-lower _ ∙ ap to_ascii_lowercase (trim-trim s))
