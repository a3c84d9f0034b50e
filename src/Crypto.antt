-- ===== src/Crypto.antt =====
-- backend/internal/crypto/crypto.go. The AEAD of packages aes and cipher, base64 and the random bytes are
-- arguments.
use findo.Prelude.{
  ℕ, ◌≡◌, refl, ap, ◌∙◌, sym, Option, none, some, [], ◌∷◌, ◌++◌, arith, ltb, ◌==◌, if◌then◌else◌,
  Text, take, drop, length, length-append, false, true,
}

abbrev pub key_size : ℕ
key_size = 32

pub data CryptoError : Type 0 where
  bad_base64 bad_key no_random too_short not_authentic : CryptoError

pub data Sealed : Type 0 where
  opened : Text → Sealed
  fails : CryptoError → Sealed

-- cipher.NewGCM of a key: Seal and Open without additional data.
pub record Gcm : Type 0 where
  pub nonce_size : ℕ
  pub seal : Text → Text → Text → Text
  pub unseal : Text → Text → Text → Option Text

-- What is used of AES-GCM: what was sealed is opened with the same key and nonce.
pub record IsGcm (gcm : Gcm) : Type 0 where
  pub opens_sealed :
      (key nonce plaintext : Text)
      → gcm.unseal key nonce (gcm.seal key nonce plaintext) ≡ some plaintext

abbrev pub of_length : Text → Sealed
of_length key = if length key == key_size then opened key else fails bad_key

abbrev pub of_base64 : Option Text → Sealed
of_base64 none = fails bad_base64
of_base64 (some key) = of_length key

-- ParseKey
unfoldable pub parse_key : (Text → Option Text) → Text → Sealed
parse_key decode b64 = of_base64 (decode b64)

abbrev pub of_opened : Option Text → Sealed
of_opened none = fails not_authentic
of_opened (some p) = opened p

module _ (gcm : Gcm) where
  abbrev pub with_nonce : Text → Text → Option Text → Sealed
  with_nonce key plaintext none = fails no_random
  with_nonce key plaintext (some nonce) = opened (nonce ++ gcm.seal key nonce plaintext)

  -- Encrypt, with the random bytes that are read for the nonce
  unfoldable pub encrypt : Option Text → Text → Text → Sealed
  encrypt random key plaintext =
      if length key == key_size then with_nonce key plaintext random else fails bad_key

  unfoldable pub decrypt : Text → Text → Sealed
  decrypt key ciphertext =
      if length key == key_size
      then if ltb (length ciphertext) gcm.nonce_size
        then fails too_short
        else of_opened
            (gcm.unseal key (take gcm.nonce_size ciphertext) (drop gcm.nonce_size ciphertext))
      else fails bad_key

take-append : (s t : Text) → take (length s) (s ++ t) ≡ s
take-append [] t = refl
take-append (c ∷ s) t = ap (◌∷◌ c) (take-append s t)

drop-append : (s t : Text) → drop (length s) (s ++ t) ≡ t
drop-append [] t = refl
drop-append (c ∷ s) t = drop-append s t

-- With a key of 32 bytes and as many random bytes as the nonce has, a password is encrypted, and what is
-- stored decrypts to it under the same key, provided that AES-GCM opens what it sealed.
decrypt-encrypt :
    (gcm : Gcm) (law : IsGcm gcm) (key nonce plaintext : Text)
    → length key ≡ key_size
    → length nonce ≡ gcm.nonce_size
    → (stored : Text) × (encrypt gcm (some nonce) key plaintext ≡ opened stored)
      × (decrypt gcm key stored ≡ opened plaintext)
unfolding encrypt decrypt
decrypt-encrypt gcm law key nonce plaintext good_key good_nonce =
    let c = gcm.seal key nonce plaintext in
    let key_ok : (length key == key_size) ≡ true = ground arith in
    let long : ltb (length (nonce ++ c)) gcm.nonce_size ≡ false =
      ground (arith, length-append nonce c) in
    let front : take gcm.nonce_size (nonce ++ c) ≡ nonce =
      ap (λ n. take n (nonce ++ c)) (sym good_nonce) ∙ take-append nonce c in
    let back : drop gcm.nonce_size (nonce ++ c) ≡ c =
      ap (λ n. drop n (nonce ++ c)) (sym good_nonce) ∙ drop-append nonce c in
    (
      nonce ++ c,
      rw key_ok refl,
      rw (key_ok, long, front, back) (ap of_opened (law.opens_sealed key nonce plaintext)),
    )
