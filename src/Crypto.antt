-- ===== src/Crypto.antt =====
-- backend/src/security/encryption.util.ts and message-encryption.util.ts: texts at rest. What
-- the code uses of Node, namely random bytes, the encodings utf8 and base64 of a Buffer, AES-GCM, and
-- JSON, are the fields of `Cipher`. A Buffer is a list of numbers below 256; a thrown error is `none`.
pub mod RoundTrip
pub mod Rotation
use corcy.Prelude.{
  ℕ, zero, suc, ◌+◌, Bool, true, false, not, ◌&&◌, ◌||◌, Option, none, some, List, [], ◌∷◌, ◌==◌,
  leb, is_some, Text, codes, is_empty, trim, starts_with, length, if◌then◌else◌,
}

-- What JSON.parse finds in a stored text: a missing field, or one that is no string, is `none`.
pub record Payload : Type 0 where
  pub ciphertext : Option Text
  pub iv : Option Text
  pub tag : Option Text
  pub version : ℕ

pub record Cipher : Type 0 where
  -- what `randomBytes` draws for the encryption of the request
  pub random_bytes : ℕ → List ℕ
  pub to_utf8 : Text → List ℕ
  pub from_utf8 : List ℕ → Text
  pub to_base64 : List ℕ → Text
  pub from_base64 : Text → List ℕ
  -- with a key and a nonce: the ciphertext and the tag of some bytes, and the bytes of a tag and a
  -- ciphertext, none where the tag does not fit
  pub seal : List ℕ → List ℕ → List ℕ → List ℕ × List ℕ
  pub unseal : List ℕ → List ℕ → List ℕ → List ℕ → Option (List ℕ)
  -- `JSON.stringify` and `JSON.parse`
  pub print : Payload → Text
  pub parse : Text → Option Payload

-- `KEY_STORE`, the versions with their keys.
abbrev pub KeyStore : Type 0
KeyStore = List (ℕ × List ℕ)

unfoldable pub key_at : ℕ → KeyStore → Option (List ℕ)
key_at v [] = none
key_at v ((k, key) ∷ ks) = let rest = key_at v ks in if k == v then some key else rest

-- `Math.max(0, ...versions)`
unfoldable pub max_version : KeyStore → ℕ
max_version [] = 0
max_version ((k, _) ∷ ks) = let m = max_version ks in if leb m k then k else m

abbrev pub key_len : ℕ
key_len = 32

abbrev pub iv_len : ℕ
iv_len = 16

-- The loop of `loadKeyStore` over `MESSAGE_ENCRYPTION_KEY_V1`, `_V2`, … as far as they are set; a key
-- of another length than 32 is passed over.
unfoldable pub load_versions : ℕ → List (List ℕ) → KeyStore
load_versions v [] = []
load_versions v (buf ∷ bufs) =
    let rest = load_versions (v + 1) bufs in if length buf == key_len then (v, buf) ∷ rest else rest

-- `loadKeyStore`: `current` is `MESSAGE_ENCRYPTION_KEY`, which gets the next version.
unfoldable pub load_key_store : List (List ℕ) → Option (List ℕ) → KeyStore
load_key_store bufs none = load_versions 1 bufs
load_key_store bufs (some buf) =
    let store = load_versions 1 bufs in
    if length buf == key_len then (max_version store + 1, buf) ∷ store else store

unfoldable pub is_encryption_enabled : KeyStore → Bool
is_encryption_enabled [] = false
is_encryption_enabled (_ ∷ _) = true

abbrev pub e2e_prefix : Text
e2e_prefix = codes "e2e:"

abbrev pub damaged_text : Text
damaged_text = codes "[Сообщение повреждено или ключ изменён]"

-- A throw ends the body.
module _ {A : Type 0} {B : Type 0} where
  infixl 5 ◌>>=◌
  abbrev ◌>>=◌ : Option A → (A → Option B) → Option B
  none >>= k = none
  some a >>= k = k a

module _ (c : Cipher) where
  -- The payload of some sealed bytes.
  abbrev pub payload_of : List ℕ → List ℕ × List ℕ → ℕ → Payload
  payload_of iv sealed version = record {
    ciphertext = some (c.to_base64 sealed.0);
    iv = some (c.to_base64 iv);
    tag = some (c.to_base64 sealed.1);
    version = version;
  }

  -- The body for a key that is there.
  abbrev pub encrypt_under : List ℕ → ℕ → Text → Text
  encrypt_under key version plaintext =
      let iv = c.random_bytes iv_len in
      c.print (payload_of iv (c.seal key iv (c.to_utf8 plaintext)) version)

  -- `Buffer.from` throws on a field that is missing.
  abbrev pub decrypt_under : List ℕ → Payload → Option Text
  decrypt_under key p = do
    iv ← p.iv
    tag ← p.tag
    ciphertext ← p.ciphertext
    bytes ← c.unseal key (c.from_base64 iv) (c.from_base64 tag) (c.from_base64 ciphertext)
    some (c.from_utf8 bytes)

module _ (c : Cipher) (store : KeyStore) where
  unfoldable pub encrypt_string : Text → Text
  encrypt_string plaintext =
      if not (is_encryption_enabled store)
      then plaintext
      else elim (key_at (max_version store) store) [
        | none ↦ plaintext
        | some key ↦ encrypt_under c key (max_version store) plaintext
      ]

  -- `payload.version || 1`
  unfoldable pub decrypt_with_version : Payload → Option Text
  decrypt_with_version p = elim (key_at (if p.version == 0 then 1 else p.version) store) [
    | none ↦ none
    | some key ↦ decrypt_under c key p
  ]

  unfoldable pub looks_encrypted_json : Text → Bool
  looks_encrypted_json value = elim (c.parse value) [
    | none ↦ false
    | some p ↦ is_some p.ciphertext && is_some p.iv && is_some p.tag
  ]

  unfoldable pub prepare_message_for_storage : Text → Text
  prepare_message_for_storage text =
      if is_empty text || is_empty (trim text)
      then text
      else if starts_with e2e_prefix text
      then text
      else encrypt_string text

  unfoldable pub prepare_message_for_api : Text → Text
  prepare_message_for_api stored =
      if is_empty stored
      then stored
      else if starts_with e2e_prefix stored
      then stored
      else if looks_encrypted_json stored
      then elim (c.parse stored) [
        | none ↦ damaged_text
        | some p ↦ elim (decrypt_with_version p) [ none ↦ damaged_text | some t ↦ t ]
      ]
      else stored
