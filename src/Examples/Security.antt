-- ===== src/Examples/Security.antt =====
-- Texts at rest, and keys.
use corcy.Prelude.{◌≡◌, inl, refl, some, [], ◌∷◌, ◌++◌, codes, arith}
use corcy.Crypto.{
  is_encryption_enabled, key_at, max_version, load_versions, load_key_store,
  prepare_message_for_api, prepare_message_for_storage,
}
use corcy.Crypto.RoundTrip.{is_well_formed, prepare_message_round_trip}
use corcy.Crypto.Rotation.{key_at-rotate}
use corcy.Examples.{env, cipher, cipher-IsCipher, fill}

prepare_message_round_trip_example :
    prepare_message_for_api cipher env.key_store
      (prepare_message_for_storage cipher env.key_store (codes "hi"))
    ≡ codes "hi"
prepare_message_round_trip_example =
    prepare_message_round_trip cipher cipher-IsCipher env.key_store (codes "hi")
      (unfold is_well_formed in refl) ((omega arith, refl), tt) (unfold max_version in omega arith)
      (inl (unfold is_encryption_enabled in refl))

key_at-rotate_example :
    key_at 2 (load_key_store ((fill 1 32 ∷ []) ++ fill 2 32 ∷ []) (some (fill 3 32)))
    ≡ some (fill 2 32)
key_at-rotate_example =
    key_at-rotate (fill 1 32 ∷ []) (fill 2 32) (fill 3 32) 2 (fill 2 32) (refl, tt) refl
      (unfold key_at load_key_store load_versions max_version in refl)
