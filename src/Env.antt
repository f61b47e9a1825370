-- ===== src/Env.antt =====
-- What the services take from outside the repository: the URL parser, the database's text match,
-- the cipher, and settings of the process environment.
use corcy.Prelude.{
  Bool, true, false, not, ◌&&◌, Option, none, some, Text, text_eq, codes, is_empty, if◌then◌else◌,
}
use corcy.Crypto.{Cipher, KeyStore, prepare_message_for_storage, prepare_message_for_api}
use corcy.Store.{Exec, bad_attachment, throw_if}

pub record Url : Type 0 where
  pub protocol : Text
  pub hostname : Text

pub record Env : Type 0 where
  -- `new URL(url)`, `none` where it throws
  pub parse_url : Text → Option Url
  -- CLOUDINARY_CLOUD_NAME, empty if not set
  pub cloudinary_cloud_name : Text
  -- `contains`, `mode: 'insensitive'` of the database
  pub contains : Text → Text → Bool
  pub cipher : Cipher
  pub key_store : KeyStore

-- `url` is given: neither undefined nor empty.
abbrev pub is_given : Option Text → Bool
is_given none = false
is_given (some url) = not (is_empty url)

module _ (env : Env) where
  abbrev pub for_storage : Text → Text
  for_storage = prepare_message_for_storage env.cipher env.key_store

  abbrev pub for_api : Text → Text
  for_api = prepare_message_for_api env.cipher env.key_store

  -- backend/src/common/attachment-url.util.ts
  unfoldable pub is_allowed_attachment_url : Option Text → Bool
  is_allowed_attachment_url none = false
  is_allowed_attachment_url (some url) = if is_empty url then false else elim (env.parse_url url) [
    | none ↦ false
    | some parsed ↦
        if not (text_eq parsed.protocol (codes "https:"))
        then false
        else if not (is_empty env.cloudinary_cloud_name)
        then text_eq parsed.hostname (codes "res.cloudinary.com")
        else true
  ]

  abbrev pub assert_allowed_attachment_url : Option Text → Exec (Unit {0})
  assert_allowed_attachment_url url =
      throw_if (is_given url && not (is_allowed_attachment_url url)) bad_attachment
