-- ===== src/Rooms/Chat.antt =====
-- The messages of rooms.
use mathlib.Core.Option
use mathlib.Core.List.{reverse}
use corcy.Prelude.{
  ℕ, ◌-◌, min, Bool, true, not, ◌&&◌, Option, none, some, List, [], ◌∷◌, map, ◌==◌, ltb, or_else,
  is_some, length, take, Text, is_empty, trim, if◌then◌else◌,
}
use corcy.Store.{
  Cuid, Time, RoomMessage, World, RoomMessageView, ReplyView, new_room_message, room_message_edited,
  forbidden, not_found, empty_text, text_too_long, edit_window_over, Exec, pure, read, write,
  throw_if, some_or, send_to_room, ◌>>=◌, ◌>>◌,
}
use corcy.Store.Table.{find_first, find_many, update}
use corcy.Store.Order.{sort_desc}
use corcy.Crypto.{is_encryption_enabled}
use corcy.Env.{Env, is_given, for_storage, for_api, assert_allowed_attachment_url}
use corcy.Messages.{Attachment, url_of, name_of, kind_of, max_text_length, edit_window_ms}
use corcy.Rooms.{ensure_member}

abbrev pub has_room_message_id : Cuid → RoomMessage → Bool
has_room_message_id message_id m = m.id == message_id

abbrev pub in_room : Cuid → RoomMessage → Bool
in_room room_id m = m.room_id == room_id

pub record RoomPage : Type 0 where
  pub messages : List RoomMessageView
  pub has_more : Bool
  pub next_cursor : Option Cuid

abbrev before_cursor : Option Cuid → RoomMessage → Bool
before_cursor none m = true
before_cursor (some c) m = ltb m.id c

abbrev first_id : List RoomMessage → Option Cuid
first_id [] = none
first_id (m ∷ _) = some m.id

abbrev pub room_rows : Cuid → Option Cuid → ℕ → World → List RoomMessage
room_rows room_id before limit w = take limit (
    sort_desc (λ (m : RoomMessage). m.created_at)
      (find_many (λ m. in_room room_id m && before_cursor before m) w.room_messages))

-- `replyToId` where it names a message of the room.
abbrev pub valid_reply : Cuid → Option Cuid → World → Option Cuid
valid_reply room_id none w = none
valid_reply room_id (some i) w =
    Option.map (λ (m : RoomMessage). m.id)
      (find_first (λ m. has_room_message_id i m && in_room room_id m) w.room_messages)

-- A result of `searchMessages`.
pub record RoomResult : Type 0 where
  pub message_id : Cuid
  pub text : Text
  pub created_at : Time
  pub sender_id : Cuid

pub data RoomSearch : Type 0 where
  encrypted : RoomSearch
  results : List RoomResult → RoomSearch

module _ (env : Env) where
  abbrev reply_view : RoomMessage → ReplyView
  reply_view m = record {
    id = m.id;
    text = for_api env m.text;
    sender_id = m.sender_id;
    attachment_name = m.attachment_name;
  }

  abbrev replied : World → Option Cuid → Option ReplyView
  replied w none = none
  replied w (some i) = Option.map reply_view (find_first (has_room_message_id i) w.room_messages)

  abbrev pub room_message_view : World → RoomMessage → RoomMessageView
  room_message_view w m = record {
    message = record m { text = for_api env m.text };
    reply_to = replied w m.reply_to_id;
  }

  unfoldable pub list_messages : Cuid → Cuid → Option Cuid → Option ℕ → Exec RoomPage
  list_messages user_id room_id before opt_limit = do
    ensure_member user_id room_id
    let limit = min (or_else opt_limit 50) 100
    found ← read (room_rows room_id before limit)
    let rows = reverse found
    let has_more = length rows == limit
    views ← read (λ w. map (room_message_view w) rows)
    pure (record {
      messages = views;
      has_more = has_more;
      next_cursor = if has_more then first_id rows else none;
    })

  abbrev pub new_room_row :
      Cuid → Time → Cuid → Cuid → Text → Option Attachment → Option Cuid → RoomMessage
  new_room_row new_id now user_id room_id text attachment reply_to_id = record {
    id = new_id;
    room_id = room_id;
    sender_id = user_id;
    text = if is_empty (trim text) then [] else for_storage env (trim text);
    system_event_type = none;
    attachment_url = url_of attachment;
    attachment_name = name_of attachment;
    attachment_type = kind_of attachment;
    created_at = now;
    edited_at = none;
    reply_to_id = reply_to_id;
  }

  -- The checks of `sendMessage`, in their order, and the reply that is kept.
  unfoldable pub room_send_checks :
      Cuid → Cuid → Text → Option Attachment → Option Cuid → Exec (Option Cuid)
  unfolding ensure_member
  room_send_checks user_id room_id text attachment reply_to_id = do
    ensure_member user_id room_id
    reply ← read (valid_reply room_id reply_to_id)
    assert_allowed_attachment_url env (url_of attachment)
    throw_if (ltb max_text_length (length (trim text))) text_too_long
    throw_if (is_empty (trim text) && not (is_given (url_of attachment))) empty_text
    pure reply

  unfoldable pub send_message :
      Cuid → Time → Cuid → Cuid → Text → Option Attachment → Option Cuid → Exec RoomMessageView
  send_message new_id now user_id room_id text attachment reply_to_id = do
    reply ← room_send_checks user_id room_id text attachment reply_to_id
    let row = new_room_row new_id now user_id room_id text attachment reply
    write (λ w. record w { room_messages = row ∷ w.room_messages })
    view ← read (λ w. room_message_view w row)
    send_to_room room_id (new_room_message view)
    pure view

  abbrev room_result : RoomMessage → RoomResult
  room_result m = record {
    message_id = m.id;
    text = for_api env m.text;
    created_at = m.created_at;
    sender_id = m.sender_id;
  }

  unfoldable pub search_room : Cuid → Cuid → Text → Option ℕ → Exec RoomSearch
  search_room user_id room_id query opt_limit = do
    ensure_member user_id room_id
    if is_encryption_enabled env.key_store
        then pure encrypted
        else if ltb (length (trim query)) 2
        then pure (results [])
        else do
          found ← read (λ w. take (min (or_else opt_limit 20) 50) (
              sort_desc (λ (m : RoomMessage). m.created_at)
                (find_many
                  (λ m.
                    in_room room_id m
                    && env.contains m.text (trim query)
                    && not (is_some m.system_event_type))
                  w.room_messages)))
          pure (results (map room_result found))

  abbrev pub edit_room_text : Time → Text → RoomMessage → RoomMessage
  edit_room_text now text m = record m { text = for_storage env text; edited_at = some now }

  unfoldable pub edit_message : Time → Cuid → Cuid → Cuid → Text → Exec Text
  unfolding ensure_member
  edit_message now user_id room_id message_id new_text = do
    ensure_member user_id room_id
    found ← read (λ w. find_first (has_room_message_id message_id) w.room_messages)
    m ← some_or found not_found
    throw_if (not (m.room_id == room_id)) forbidden
    throw_if (not (m.sender_id == user_id)) forbidden
    throw_if (ltb edit_window_ms (now - m.created_at)) edit_window_over
    throw_if (is_empty (trim new_text)) empty_text
    throw_if (ltb max_text_length (length (trim new_text))) text_too_long
    write (λ w. record w {
      room_messages =
          update (has_room_message_id message_id) (edit_room_text now (trim new_text))
            w.room_messages;
    })
    let shown = for_api env (for_storage env (trim new_text))
    send_to_room room_id (room_message_edited room_id message_id shown now)
    pure shown
