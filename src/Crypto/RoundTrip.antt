-- ===== src/Crypto/RoundTrip.antt =====
-- Storing a text and reading it back.
use corcy.Prelude.{
  ℕ, ◌+◌, ◌<◌, ◌≡◌, refl, true, false, Option, none, some, List, [], ◌∷◌, ◌==◌, leb, is_some, ◌||◌,
  ◌&&◌, not, ltb, ◌≤◌, Bool, if◌then◌else◌, Text, is_empty, trim, starts_with, length, arith, All,
  Bool-cases, ==_refl, inl, inr, ◌⊎◌,
}
use corcy.Crypto.{
  Payload, Cipher, KeyStore, key_len, iv_len, payload_of, encrypt_under, decrypt_under, key_at,
  max_version, load_versions, load_key_store, is_encryption_enabled, encrypt_string,
  decrypt_with_version, looks_encrypted_json, prepare_message_for_storage, prepare_message_for_api,
  e2e_prefix,
}

abbrev pub IsBytes : List ℕ → Type 0
IsBytes = All (λ b. b < 256)

abbrev pub is_high : ℕ → Bool
is_high u = leb 55296 u && leb u 56319

abbrev is_low : ℕ → Bool
is_low u = leb 56320 u && leb u 57343

-- `isWellFormed` of a string of UTF-16 code units: every high surrogate stands before a low one, and
-- every low one behind a high one.
unfoldable pub is_well_formed : Text → Bool
is_well_formed [] = true
is_well_formed (u ∷ []) = ltb u 65536 && not (is_high u) && not (is_low u)
is_well_formed (u ∷ v ∷ t) =
    let behind = is_well_formed t in
    let next = is_well_formed (v ∷ t) in
    if is_high u then is_low v && behind else ltb u 65536 && not (is_low u) && next

-- 2^53 - 1, up to which JSON keeps a number.
abbrev pub max_safe_integer : ℕ
max_safe_integer = 9007199254740991

abbrev whole_payload : Text → Text → Text → ℕ → Payload
whole_payload ciphertext iv tag version = record {
  ciphertext = some ciphertext;
  iv = some iv;
  tag = some tag;
  version = version;
}

-- Node's documented behaviour: random bytes are as many as asked for; a well-formed text is read back
-- from its utf8 bytes, bytes from their base64 text, sealed bytes with the same key, nonce and tag;
-- JSON reads back an object of texts and a number, prints it with a brace in front, and does not parse
-- a blank text.
pub record IsCipher (c : Cipher) : Type 0 where
  pub draws : (n : ℕ) → (length (c.random_bytes n) ≡ n) × IsBytes (c.random_bytes n)
  pub utf8 :
      (t : Text) → is_well_formed t ≡ true → IsBytes (c.to_utf8 t) × (c.from_utf8 (c.to_utf8 t) ≡ t)
  pub base64 : (bs : List ℕ) → IsBytes bs → c.from_base64 (c.to_base64 bs) ≡ bs
  pub opens :
      (key iv bs : List ℕ)
      → length key ≡ key_len
      → length iv ≡ iv_len
      → IsBytes iv
      → IsBytes bs
      → IsBytes (c.seal key iv bs).0
        × IsBytes (c.seal key iv bs).1
        × (c.unseal key iv (c.seal key iv bs).1 (c.seal key iv bs).0 ≡ some bs)
  pub reads :
      (ciphertext iv tag : Text) (version : ℕ)
      → version ≤ max_safe_integer
      → c.parse (c.print (whole_payload ciphertext iv tag version))
        ≡ some (whole_payload ciphertext iv tag version)
  pub object : (p : Payload) → (rest : Text) × (c.print p ≡ 123 ∷ rest)
  pub blank : (t : Text) → is_empty (trim t) ≡ true → c.parse t ≡ none

-- Versions start at 1, and keys have 32 bytes.
abbrev pub IsKeyStore : KeyStore → Type 0
IsKeyStore = All (λ e. (0 < e.0) × (length e.1 ≡ key_len))

abbrev HasKey : KeyStore → Type 0
HasKey store =
    (key : List ℕ) × (key_at (max_version store) store ≡ some key)
    × (0 < max_version store)
    × (length key ≡ key_len)

HasKey-cons :
    (v : ℕ) (key : List ℕ) (ks : KeyStore)
    → 0 < v
    → length key ≡ key_len
    → HasKey ks
    → HasKey ((v, key) ∷ ks)
unfolding key_at max_version
HasKey-cons v key ks p len (found, at, pos, fits) = elim (Bool-cases (leb (max_version ks) v)) [
  | inl newest ↦ (key, rw (newest, ==_refl v), rw newest p, len)
  | inr older ↦ (found, ground (arith, older, at), rw older pos, fits)
]

-- The key that encrypts is there.
max_version-key :
    (store : KeyStore) → is_encryption_enabled store ≡ true → IsKeyStore store → HasKey store
unfolding is_encryption_enabled
max_version-key [] h p = absurd (cc h)
max_version-key ((v, key) ∷ []) h ((p, len), ps) =
    (key, unfold key_at max_version in ground arith, unfold key_at max_version in ground arith, len)
max_version-key ((v, key) ∷ (u, other) ∷ ks) h ((p, len), ps) =
    HasKey-cons v key ((u, other) ∷ ks) p len (max_version-key ((u, other) ∷ ks) refl ps)

load_versions-IsKeyStore :
    (v : ℕ) (bufs : List (List ℕ)) → 0 < v → IsKeyStore (load_versions v bufs)
unfolding load_versions
load_versions-IsKeyStore v [] p = tt
load_versions-IsKeyStore v (buf ∷ bufs) p = elim (Bool-cases (length buf == key_len)) [
  | inl fits ↦
      rw fits ((p, ground (arith, fits)), load_versions-IsKeyStore (v + 1) bufs (omega arith))
  | inr short ↦ rw short (load_versions-IsKeyStore (v + 1) bufs (omega arith))
]

-- What `loadKeyStore` makes is such a store.
pub load_key_store-IsKeyStore :
    (bufs : List (List ℕ)) (current : Option (List ℕ)) → IsKeyStore (load_key_store bufs current)
unfolding load_key_store
load_key_store-IsKeyStore bufs none = load_versions-IsKeyStore 1 bufs (omega arith)
load_key_store-IsKeyStore bufs (some buf) = elim (Bool-cases (length buf == key_len)) [
  | inl fits ↦
      rw fits ((omega arith, ground (arith, fits)), load_versions-IsKeyStore 1 bufs (omega arith))
  | inr short ↦ rw short (load_versions-IsKeyStore 1 bufs (omega arith))
]

module _ (c : Cipher) (h : IsCipher c) (store : KeyStore) where
  -- The payload of a text is opened by the same key.
  decrypt-payload :
      (key : List ℕ) (v : ℕ) (t : Text)
      → length key ≡ key_len
      → is_well_formed t ≡ true
      → decrypt_under c key (
          payload_of c (c.random_bytes iv_len) (c.seal key (c.random_bytes iv_len) (c.to_utf8 t)) v)
        ≡ some t
  decrypt-payload key v t len formed =
      let iv = c.random_bytes iv_len in
      let (size, drawn) = h.draws iv_len in
      let (bytes, text) = h.utf8 t formed in
      let (sealed, tag, opened) = h.opens key iv (c.to_utf8 t) len size drawn bytes in
      rw (
        h.base64 iv drawn,
        h.base64 (c.seal key iv (c.to_utf8 t)).0 sealed,
        h.base64 (c.seal key iv (c.to_utf8 t)).1 tag,
        opened,
        text,
      )

  -- A printed payload is read back through its own version.
  api-printed :
      (p : Payload) (key : List ℕ) (t : Text)
      → key_at p.version store ≡ some key
      → 0 < p.version
      → c.parse (c.print p) ≡ some p
      → is_some p.ciphertext && is_some p.iv && is_some p.tag ≡ true
      → decrypt_under c key p ≡ some t
      → prepare_message_for_api c store (c.print p) ≡ t
  unfolding prepare_message_for_api looks_encrypted_json decrypt_with_version starts_with
  api-printed p key t at pos parsed whole opened =
      let (rest, brace) = h.object p in ground (arith, at, pos, parsed, whole, opened, brace)

  api-encrypt_string :
      (t : Text)
      → is_well_formed t ≡ true
      → is_encryption_enabled store ≡ true
      → IsKeyStore store
      → max_version store ≤ max_safe_integer
      → prepare_message_for_api c store (encrypt_string c store t) ≡ t
  api-encrypt_string t formed on p safe =
      let (key, at, pos, len) = max_version-key store on p in
      let iv = c.random_bytes iv_len in
      let sealed = c.seal key iv (c.to_utf8 t) in
      let stored : encrypt_string c store t ≡ encrypt_under c key (max_version store) t =
        unfold encrypt_string in ground (arith, on, at) in
      rw stored (
        api-printed (payload_of c iv sealed (max_version store)) key t at pos
          (h.reads (c.to_base64 sealed.0) (c.to_base64 iv) (c.to_base64 sealed.1)
            (max_version store) safe)
          refl (decrypt-payload key (max_version store) t len formed))

  api-blank :
      (t : Text)
      → is_empty t ≡ true ⊎ is_empty (trim t) ≡ true
      → prepare_message_for_api c store t ≡ t
  unfolding prepare_message_for_api looks_encrypted_json
  api-blank t (inl e) = rw e
  api-blank t (inr e) = ground (arith, h.blank t e)

  -- Where versions start at 1, keys have 32 bytes, the last version is a safe integer, and encryption
  -- is on or the text does not look like a payload, a well-formed text that is prepared for storage is
  -- shown as it was.
  pub prepare_message_round_trip :
      (t : Text)
      → is_well_formed t ≡ true
      → IsKeyStore store
      → max_version store ≤ max_safe_integer
      → (is_encryption_enabled store ≡ true) ⊎ (looks_encrypted_json c store t ≡ false)
      → prepare_message_for_api c store (prepare_message_for_storage c store t) ≡ t
  prepare_message_round_trip t formed p safe readable =
      elim (Bool-cases (is_empty t || is_empty (trim t))) [
        | inl blank ↦
            let kept : prepare_message_for_storage c store t ≡ t =
              unfold prepare_message_for_storage in ground (arith, blank) in
            rw kept (api-blank t (ground (arith, blank)))
        | inr text ↦ elim (Bool-cases (starts_with e2e_prefix t)) [
          | inl e2e ↦
              unfold prepare_message_for_storage prepare_message_for_api in
              ground (arith, text, e2e)
          | inr plain ↦
              let stored : prepare_message_for_storage c store t ≡ encrypt_string c store t =
                unfold prepare_message_for_storage in ground (arith, text, plain) in
              rw stored (elim (Bool-cases (is_encryption_enabled store)) [
                | inl on ↦ api-encrypt_string t formed on p safe
                | inr off ↦
                    let same : encrypt_string c store t ≡ t =
                      unfold encrypt_string in ground (arith, off) in
                    rw same
                      (unfold prepare_message_for_api in ground (arith, text, plain, off, readable))
              ])
        ]
      ]
