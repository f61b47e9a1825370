-- ===== src/Messages/Threads.antt =====
-- Reading a conversation, marking as read, and editing.
use mathlib.Core.List.{reverse}
use corcy.Prelude.{
  ℕ, ◌≤◌, ◌≡◌, ◌≢◌, ◌⊎◌, inl, inr, refl, true, false, ◌&&◌, Option, some, map, min, arith, All,
  All-map, All-map_list, All-reverse, All-take, Text, Option-cases, trim, or_else,
}
use corcy.Store.{Cuid, Time, Message, World, MessageView, ok}
use corcy.Store.Table.{find_first, find_many}
use corcy.Store.Table.Laws.{find_first-update_self, find_first-update_other, All-find_many}
use corcy.Store.Order.Laws.{All-sort_desc}
use corcy.Crypto.{
  is_encryption_enabled, looks_encrypted_json, max_version, prepare_message_for_api,
  prepare_message_for_storage,
}
use corcy.Crypto.RoundTrip.{
  IsCipher, IsKeyStore, max_safe_integer, is_well_formed, prepare_message_round_trip,
}
use corcy.Env.{Env}
use corcy.Connections.{are_connected}
use corcy.Messages.{
  has_message_id, in_thread, is_before, thread_rows, MessagePage, get_thread, mark_as_read, edit,
  edit_text, message_view,
}

abbrev pub SeenBy : Cuid → Cuid → MessageView → Type 0
SeenBy a b v = in_thread a b v.message ≡ true

thread_rows-in_thread :
    (a b : Cuid) (before : Option Cuid) (limit : ℕ) (w : World)
    → All (λ m. in_thread a b m ≡ true) (thread_rows a b before limit w)
thread_rows-in_thread a b before limit w =
    let rows = find_many (λ m. in_thread a b m && is_before before m) w.messages in
    All-take (λ m. in_thread a b m ≡ true) limit _
      (All-sort_desc (λ m. in_thread a b m ≡ true) (λ (m : Message). m.created_at) rows
        (All-map rows (All-find_many (λ m. in_thread a b m && is_before before m) w.messages)
          (λ m k. ground arith)))

-- A page of a conversation is shown to contacts alone, and holds messages between the two alone.
pub get_thread-in_thread :
    (env : Env) (a b : Cuid) (before : Option Cuid) (limit : Option ℕ) (w : World) {p : MessagePage}
    → (get_thread env a b before limit w).0 ≡ ok p
    → (are_connected a b w ≡ true) × All (SeenBy a b) p.messages
get_thread-in_thread env a b before limit w {p} e =
    let n = min (or_else limit 50) 100 in
    let found = thread_rows a b before n w in
    let same : p.messages ≡ map (message_view env w) (reverse found) =
      unfold get_thread in ground (arith, e) in
    (
      unfold get_thread in ground (arith, e),
      rw same (
          All-map_list (SeenBy a b) (message_view env w) (reverse found) (
            All-reverse (λ m. in_thread a b m ≡ true) found
              (thread_rows-in_thread a b before n w))),
    )

module _ (now : Time) (user_id message_id : Cuid) (w : World) where
  -- After a user marked a message as read, marking it again at any time answers the same and changes
  -- nothing.
  pub mark_as_read_once :
      (later : Time)
      → (mark_as_read now user_id message_id w).0 ≡ ok tt
      → mark_as_read later user_id message_id (mark_as_read now user_id message_id w).1
        ≡ (ok tt, (mark_as_read now user_id message_id w).1)
  unfolding mark_as_read
  mark_as_read_once later e =
      elim (Option-cases (find_first (has_message_id message_id) w.messages)) [
        | inl missing ↦ absurd (ground (arith, missing, e))
        | inr (m, found) ↦ ground (
          arith,
          found,
          e,
          find_first-update_self (has_message_id message_id) read_it w.messages (λ x. refl),
        )
      ]
    where
      read_it : Message → Message
      read_it r = record r { read_at = some now }

module _ (env : Env) (now : Time) (user_id message_id : Cuid) (text : Text) (w : World) where
  -- An edit changes no other message, whatever it answers.
  pub edit-other :
      (i : Cuid)
      → i ≢ message_id
      → find_first (has_message_id i) (edit env now user_id message_id text w).1.messages
        ≡ find_first (has_message_id i) w.messages
  unfolding edit
  edit-other i other = ground (
    arith,
    find_first-update_other (has_message_id i) (has_message_id message_id)
        (edit_text env now (trim text)) w.messages (λ x. refl) (λ x k. ground arith),
  )

  -- An edit that succeeds answers the trimmed text, if that is well-formed, the key store is one
  -- that can be loaded, and encryption is on or the text does not look like a payload.
  pub edit-shown :
      {shown : Text}
      → IsCipher env.cipher
      → is_well_formed (trim text) ≡ true
      → IsKeyStore env.key_store
      → max_version env.key_store ≤ max_safe_integer
      → (is_encryption_enabled env.key_store ≡ true)
        ⊎ (looks_encrypted_json env.cipher env.key_store (trim text) ≡ false)
      → (edit env now user_id message_id text w).0 ≡ ok shown
      → shown ≡ trim text
  edit-shown {shown} laws formed p safe readable e =
      let same : shown
          ≡ prepare_message_for_api env.cipher env.key_store
              (prepare_message_for_storage env.cipher env.key_store (trim text)) =
        unfold edit in ground (arith, e) in
      rw same (
        prepare_message_round_trip env.cipher laws env.key_store (trim text) formed p safe readable)
