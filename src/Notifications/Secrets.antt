-- ===== src/Notifications/Secrets.antt =====
-- src/notifications/secrets.rs: the box around a channel's configuration, over the cipher's crate.
-- The 12 bytes of a nonce come with each call.
use legaltech_contract_autom.Common.{
  ℕ, zero, suc, ◌≡◌, refl, ap, Bool, Option, none, some, List, [], ◌∷◌, ◌++◌, length, take, drop,
  ltb, if◌then◌else◌, Result, ok, err, arith, Option-cases, length-append, inl, inr,
}

pub data SecretError : Type 0 where
  invalid_key decrypt_failed encrypt_failed invalid_json : SecretError

-- ChaCha20Poly1305 under one key.
pub record Cipher : Type 0 where
  pub seal : (nonce plaintext : List ℕ) → Option (List ℕ)
  pub unseal : (nonce ciphertext : List ℕ) → Option (List ℕ)

-- What the crate documents: a ciphertext opens, under the nonce it was sealed with, to its text.
pub record Opens (c : Cipher) : Type 0 where
  pub opens :
      (nonce plaintext ciphertext : List ℕ)
      → c.seal nonce plaintext ≡ some ciphertext
      → c.unseal nonce ciphertext ≡ some plaintext

unfoldable pub encrypt : Cipher → (nonce plaintext : List ℕ) → Result SecretError (List ℕ)
encrypt c nonce plaintext = elim (c.seal nonce plaintext) [
  | none ↦ err encrypt_failed
  | some ciphertext ↦ ok (nonce ++ ciphertext)
]

unfoldable pub decrypt : Cipher → List ℕ → Result SecretError (List ℕ)
decrypt c bytes =
    if ltb (length bytes) 12
    then err decrypt_failed
    else elim (c.unseal (take 12 bytes) (drop 12 bytes)) [
      | none ↦ err decrypt_failed
      | some plaintext ↦ ok plaintext
    ]

take-append : (xs ys : List ℕ) (n : ℕ) → length xs ≡ n → take n (xs ++ ys) ≡ xs
take-append [] ys zero e = refl
take-append [] ys (suc n) e = absurd (omega arith)
take-append (x ∷ xs) ys zero e = absurd (omega arith)
take-append (x ∷ xs) ys (suc n) e = ap (λ l. x ∷ l) (take-append xs ys n (omega arith))

drop-append : (xs ys : List ℕ) (n : ℕ) → length xs ≡ n → drop n (xs ++ ys) ≡ ys
drop-append [] ys zero e = refl
drop-append [] ys (suc n) e = absurd (omega arith)
drop-append (x ∷ xs) ys zero e = absurd (omega arith)
drop-append (x ∷ xs) ys (suc n) e = drop-append xs ys n (omega arith)

length-append_ge : (xs ys : List ℕ) → length xs ≡ 12 → ltb (length (xs ++ ys)) 12 ≡ Bool.false
length-append_ge xs ys e = ground (arith, length-append xs ys)

-- What was encrypted under a nonce of 12 bytes is decrypted to what it was.
pub decrypt-encrypt :
    (c : Cipher) (nonce plaintext bytes : List ℕ)
    → Opens c
    → length nonce ≡ 12
    → encrypt c nonce plaintext ≡ ok bytes
    → decrypt c bytes ≡ ok plaintext
unfolding encrypt decrypt
decrypt-encrypt c nonce plaintext bytes law size e = elim (Option-cases (c.seal nonce plaintext)) [
  | inl failed ↦ let e' = rw (failed, encrypt) at e in absurd (cc)
  | inr (text, sealed) ↦
      let e' = rw (sealed, encrypt) at e in
      let same : (nonce ++ text) ≡ bytes = cc in
      rw (← same) (
        rw
          (
            length-append_ge nonce text size,
            take-append nonce text 12 size,
            drop-append nonce text 12 size,
            law.opens nonce plaintext text sealed,
          )
          refl)
]
