-- ===== src/Examples.antt =====
-- Concrete rows and settings for the examples: two users who are contacts, and a cipher that keeps
-- the laws.
pub mod Contacts
pub mod Chats
pub mod Sessions
pub mod Security
pub mod Groups
pub mod Accounts
pub mod Business
pub mod Web
use mathlib.Core.Option
use Prim.Native.Nat.{◌/◌, ◌%◌}
use corcy.Prelude.{
  ℕ, zero, suc, ◌+◌, ◌*◌, ◌<◌, ap, length, All, Bool, true, false, not, Option, none, some, List,
  [], ◌∷◌, ◌==◌, ◌≡◌, refl, Text, codes, is_empty, trim, if◌then◌else◌, is_some, arith, starts_with,
  Bool-cases, inl, inr,
}
use corcy.Prelude.Blank.{brace_not_blank}
use corcy.Store.{Cuid, User, free, Connection, Message, World, empty_world}
use corcy.Crypto.{Payload, Cipher, KeyStore}
use corcy.Crypto.RoundTrip.{IsCipher, IsBytes, is_well_formed, is_high}
use corcy.Env.{Env, Url}

abbrev pub user : Cuid → Text → User
user id email = record {
  id = id;
  email = email;
  password_hash = [];
  name = none;
  is_verified = true;
  is_admin = false;
  plan = free;
  plan_expires_at = none;
  totp_secret = none;
  pending_totp_secret = none;
  totp_enabled = false;
  totp_enabled_at = none;
  backup_codes = [];
  avatar_url = none;
  stripe_customer_id = none;
  e2e_public_key = none;
  e2e_key_uploaded_at = none;
}

abbrev pub alice : User
alice = user 1 (codes "alice@example.com")

abbrev pub bob : User
bob = user 2 (codes "bob@example.com")

abbrev pub strangers : World
strangers = record empty_world { users = alice ∷ bob ∷ [] }

abbrev pub contact : Connection
contact = record { id = 5; user_id_a = 1; user_id_b = 2; created_at = 0 }

abbrev pub contacts : World
contacts = record strangers { connections = contact ∷ [] }

abbrev pub greeting : Message
greeting = record {
  id = 7;
  created_at = 10;
  sender_id = 1;
  recipient_id = 2;
  text = codes "hi";
  attachment_url = none;
  attachment_name = none;
  attachment_type = none;
  read_at = none;
  edited_at = none;
  reply_to_id = none;
}

abbrev pub chat : World
chat = record contacts { messages = greeting ∷ [] }

-- A text between others: a 1 before each of its code units, and a 0 behind them.
unfoldable pub write_text : Text → Text → Text
write_text [] rest = 0 ∷ rest
write_text (u ∷ t) rest = 1 ∷ u ∷ write_text t rest

abbrev prepend : ℕ → Text × Text → Text × Text
prepend u (t, rest) = (u ∷ t, rest)

unfoldable pub read_text : Text → Text × Text
read_text [] = ([], [])
read_text (_ ∷ []) = ([], [])
read_text (mark ∷ u ∷ t) =
    let rest = prepend u (read_text t) in if mark == 1 then rest else ([], u ∷ t)

read-write_text :
    (t rest : Text) → is_empty rest ≡ false → read_text (write_text t rest) ≡ (t, rest)
unfolding write_text read_text
read-write_text [] [] h = absurd (cc h)
read-write_text [] (u ∷ rest) h = refl
read-write_text (v ∷ t) rest h = rw (read-write_text t rest h)

write_text-filled : (t rest : Text) → is_empty (write_text t rest) ≡ false
unfolding write_text
write_text-filled [] rest = refl
write_text-filled (u ∷ t) rest = refl

abbrev field : Option Text → Text
field none = []
field (some t) = t

-- A payload is printed as a brace, the version and the three texts.
unfoldable pub print_payload : Payload → Text
print_payload p =
    123
    ∷ p.version
    ∷ write_text (field p.ciphertext) (write_text (field p.iv) (write_text (field p.tag) (0 ∷ [])))

abbrev read_fields : ℕ → Text → Payload
read_fields version s =
    let first = read_text s in
    let second = read_text first.1 in
    let third = read_text second.1 in
    record { ciphertext = some first.0; iv = some second.0; tag = some third.0; version = version }

unfoldable pub parse_payload : Text → Option Payload
unfolding read_text
parse_payload [] = none
parse_payload (_ ∷ []) = none
parse_payload (c ∷ v ∷ s) = if c == 123 then some (read_fields v s) else none

read_printed :
    (a i t : Text) (v : ℕ)
    → read_fields v (write_text a (write_text i (write_text t (0 ∷ []))))
      ≡ record { ciphertext = some a; iv = some i; tag = some t; version = v }
read_printed a i t v =
    let last = write_text t (0 ∷ []) in
    rw (
      read-write_text a (write_text i last) (write_text-filled i last),
      read-write_text i last (write_text-filled t (0 ∷ [])),
      read-write_text t (0 ∷ []) refl,
    )

-- A code unit is two bytes.
unfoldable pub to_bytes : Text → List ℕ
to_bytes [] = []
to_bytes (u ∷ t) = u / 256 ∷ u % 256 ∷ to_bytes t

unfoldable pub from_bytes : List ℕ → Text
from_bytes [] = []
from_bytes (_ ∷ []) = []
from_bytes (a ∷ b ∷ bs) = (a * 256 + b) ∷ from_bytes bs

abbrev pub fill : ℕ → ℕ → List ℕ
fill b zero = []
fill b (suc n) = b ∷ fill b n

abbrev pub cipher : Cipher
cipher = record {
  random_bytes = fill 7;
  to_utf8 = to_bytes;
  from_utf8 = from_bytes;
  to_base64 = λ bs. bs;
  from_base64 = λ t. t;
  seal = λ key iv bs. (bs, iv);
  unseal = λ key iv tag bs. some bs;
  print = print_payload;
  parse = parse_payload;
}

blank-none : (t : Text) → is_empty (trim t) ≡ true → parse_payload t ≡ none
unfolding parse_payload
blank-none [] h = refl
blank-none (_ ∷ []) h = refl
blank-none (c ∷ v ∷ t) h = elim (Bool-cases (c == 123)) [
  | inl brace ↦
      let same : c ≡ 123 = ground (arith, brace) in
      absurd (cc (brace_not_blank (v ∷ t), rw same at h))
  | inr other ↦ rw other
]

fill-drawn : (n : ℕ) → (length (fill 7 n) ≡ n) × IsBytes (fill 7 n)
fill-drawn zero = (refl, tt)
fill-drawn (suc n) = (ap suc (fill-drawn n).0, (omega arith, (fill-drawn n).1))

well_formed-Units : (t : Text) → is_well_formed t ≡ true → All (λ u. u < 65536) t
unfolding is_well_formed
well_formed-Units [] h = tt
well_formed-Units (u ∷ []) h = (ground (arith, h), tt)
well_formed-Units (u ∷ v ∷ t) h = elim (Bool-cases (is_high u)) [
  | inl high ↦ (
    ground (arith, h, high),
    (ground (arith, h, high), well_formed-Units t (ground (arith, h, high))),
  )
  | inr other ↦ (ground (arith, h, other), well_formed-Units (v ∷ t) (ground (arith, h, other)))
]

to_bytes-read :
    (t : Text) → All (λ u. u < 65536) t → IsBytes (to_bytes t) × (from_bytes (to_bytes t) ≡ t)
unfolding to_bytes from_bytes
to_bytes-read [] h = (tt, refl)
to_bytes-read (u ∷ t) (small, h) =
    let (bytes, same) = to_bytes-read t h in
    let unit : u / 256 * 256 + u % 256 ≡ u = omega arith in
    ((omega (arith, small), (omega arith, bytes)), cc (unit, same))

pub cipher-IsCipher : IsCipher cipher
unfolding print_payload parse_payload
cipher-IsCipher = record {
  draws = fill-drawn;
  utf8 = λ t h. to_bytes-read t (well_formed-Units t h);
  base64 = λ bs h. refl;
  opens = λ key iv bs k l i b. (b, i, refl);
  reads = λ a i t v safe. ap some (read_printed a i t v);
  object = λ p. (p.version ∷ _, refl);
  blank = blank-none;
}

abbrev pub env : Env
env = record {
  parse_url = λ url. some (record { protocol = codes "https:"; hostname = url });
  cloudinary_cloud_name = [];
  contains = λ s t. starts_with t s;
  cipher = cipher;
  key_store = (1, fill 9 32) ∷ [];
}
