-- ===== src/Messages.antt =====
-- backend/src/messages/messages.service.ts. The clock reading and the id of a new row are
-- arguments. A reply that is not asked for is `none`.
pub mod Reactions
pub mod Access
pub mod Integrity
pub mod Search
pub mod Threads
pub mod Reach
use mathlib.Core.Option
use corcy.Prelude.{
  ℕ, zero, suc, ◌-◌, min, Bool, true, false, not, ◌&&◌, ◌||◌, Option, none, some, List, [], ◌∷◌,
  ◌++◌, map, ◌==◌, ltb, leb, or_else, is_some, length, take, Text, codes, is_empty, trim,
  if◌then◌else◌,
}
use mathlib.Core.List.{reverse}
use corcy.Store.{
  Cuid, Time, User, Message, MessageReaction, World, MessageView, ReplyView, new_direct_message,
  message_read, message_edited, Fault, invalid_request, forbidden, not_found, empty_text,
  text_too_long, self_target, recipient_missing, not_a_contact, edit_window_over, Exec, pure, throw,
  read, write, throw_if, some_or, continue, send_to_user, push_to_user, ◌>>=◌, ◌>>◌,
}
use corcy.Store.Table.{find_first, find_many, update, delete_many}
use corcy.Store.Order.{sort_desc}
use corcy.Plans.Guard.{has_id}
use corcy.Connections.{are_connected}
use corcy.Crypto.{is_encryption_enabled}
use corcy.Gateway.{is_online}
use corcy.Env.{Env, is_given, for_storage, for_api, assert_allowed_attachment_url}

abbrev pub has_message_id : Cuid → Message → Bool
has_message_id message_id m = m.id == message_id

-- The two directions of a conversation.
abbrev pub in_thread : Cuid → Cuid → Message → Bool
in_thread a b m =
    (m.sender_id == a && m.recipient_id == b) || (m.sender_id == b && m.recipient_id == a)

abbrev pub max_text_length : ℕ
max_text_length = 4000

-- 24 * 60 * 60 * 1000
abbrev pub edit_window_ms : ℕ
edit_window_ms = 86400000

pub record Attachment : Type 0 where
  pub url : Option Text
  pub name : Option Text
  pub kind : Option Text

abbrev pub url_of : Option Attachment → Option Text
url_of none = none
url_of (some a) = a.url

abbrev pub name_of : Option Attachment → Option Text
name_of none = none
name_of (some a) = a.name

abbrev pub kind_of : Option Attachment → Option Text
kind_of none = none
kind_of (some a) = a.kind

-- `text.split('@')[0]`
pub local_part : Text → Text
local_part [] = []
local_part (c ∷ cs) = let rest = c ∷ local_part cs in if c == b'@' then [] else rest

-- `value || other`
abbrev pub or_text : Option Text → Text → Text
or_text none other = other
or_text (some t) other = if is_empty t then other else t

-- `user?.name || user?.email?.split('@')[0] || other`
unfoldable pub display_name : Option User → Text → Text
unfolding local_part
display_name none other = other
display_name (some u) other = or_text u.name (or_text (some (local_part u.email)) other)

pub record MessagePage : Type 0 where
  pub messages : List MessageView
  pub has_more : Bool
  pub next_cursor : Option Cuid

-- `opts.before ? { id: { lt: before } } : {}`
abbrev pub is_before : Option Cuid → Message → Bool
is_before none m = true
is_before (some c) m = ltb m.id c

abbrev first_id : List Message → Option Cuid
first_id [] = none
first_id (m ∷ _) = some m.id

abbrev pub thread_rows : Cuid → Cuid → Option Cuid → ℕ → World → List Message
thread_rows a b before limit w = take limit (
    sort_desc (λ (m : Message). m.created_at)
      (find_many (λ m. in_thread a b m && is_before before m) w.messages))

-- `replyToId` where it names a message of the conversation.
abbrev pub validated_reply : Cuid → Cuid → Option Cuid → World → Option Cuid
validated_reply a b none w = none
validated_reply a b (some r) w =
    Option.map (λ (m : Message). m.id)
      (find_first (λ m. has_message_id r m && in_thread a b m) w.messages)

-- The body of the push for a recipient who is not online.
abbrev pub push_body : Text → Option Attachment → Text
push_body text attachment = take 100 (
    if not (is_empty (trim text))
    then trim text
    else or_text (Option.map trim (name_of attachment)) (codes "Corsy"))

unfoldable pub mark_as_read : Time → Cuid → Cuid → Exec (Unit {0})
mark_as_read now current_user_id message_id = do
  found ← read (λ w. find_first (has_message_id message_id) w.messages)
  m ← some_or found not_found
  throw_if (not (m.recipient_id == current_user_id)) forbidden
  if is_some m.read_at then pure tt else do
    write (λ w. record w {
      messages =
          update (has_message_id message_id) (λ r. record r { read_at = some now }) w.messages;
    })
    send_to_user m.sender_id (message_read message_id now)

unfoldable pub deliver : Cuid → Cuid → Text → Option Attachment → MessageView → Exec (Unit {0})
unfolding is_online display_name
deliver current_user_id to text attachment view = do
  send_to_user to
      (new_direct_message (record view { message = record (view.message) { text = trim text } }))
  online ← read (λ w. is_online to w.user_sockets)
  if online then pure tt else do
    sender ← read (λ w. find_first (has_id current_user_id) w.users)
    push_to_user (record {
      user_id = to;
      title = display_name sender (codes "Corsy");
      body = push_body text attachment;
    })

abbrev pub is_participant : Cuid → Message → Bool
is_participant user_id m = m.sender_id == user_id || m.recipient_id == user_id

-- `message.delete`, with what the schema does to the rows that refer to the message: reactions go,
-- and replies lose their reference.
abbrev pub forget_reply : Cuid → Message → Message
forget_reply message_id m = elim m.reply_to_id [
  | none ↦ m
  | some r ↦ if r == message_id then record m { reply_to_id = none } else m
]

abbrev pub drop_reactions : Cuid → List MessageReaction → List MessageReaction
drop_reactions message_id = delete_many (λ (r : MessageReaction). r.message_id == message_id)

abbrev pub delete_message : Cuid → World → World
delete_message message_id w = record w {
  messages = map (forget_reply message_id) (delete_many (has_message_id message_id) w.messages);
  reactions = drop_reactions message_id w.reactions;
}

unfoldable pub remove : Cuid → Cuid → Exec (Unit {0})
remove current_user_id message_id = do
  found ← read (λ w. find_first (has_message_id message_id) w.messages)
  m ← some_or found not_found
  throw_if (not (is_participant current_user_id m)) forbidden
  write (delete_message message_id)

module _ (env : Env) where
  abbrev pub reply_view : Message → ReplyView
  reply_view m = record {
    id = m.id;
    text = for_api env m.text;
    sender_id = m.sender_id;
    attachment_name = m.attachment_name;
  }

  -- The join of `replyTo`.
  abbrev pub replied : World → Option Cuid → Option ReplyView
  replied w none = none
  replied w (some r) = Option.map reply_view (find_first (has_message_id r) w.messages)

  abbrev pub message_view : World → Message → MessageView
  message_view w m = record {
    message = record m { text = for_api env m.text };
    reply_to = replied w m.reply_to_id;
  }

  unfoldable pub get_thread : Cuid → Cuid → Option Cuid → Option ℕ → Exec MessagePage
  get_thread current_user_id peer_id before opt_limit = do
    throw_if (peer_id == 0) invalid_request
    connected ← read (are_connected current_user_id peer_id)
    throw_if (not connected) forbidden
    let limit = min (or_else opt_limit 50) 100
    found ← read (thread_rows current_user_id peer_id before limit)
    let rows = reverse found
    let has_more = length rows == limit
    views ← read (λ w. map (message_view w) rows)
    pure (record {
      messages = views;
      has_more = has_more;
      next_cursor = if has_more then first_id rows else none;
    })

  abbrev pub new_message :
      Cuid → Time → Cuid → Cuid → Text → Option Attachment → Option Cuid → Message
  new_message new_id now sender to text attachment reply_to_id = record {
    id = new_id;
    created_at = now;
    sender_id = sender;
    recipient_id = to;
    text = if is_empty (trim text) then [] else for_storage env (trim text);
    attachment_url = url_of attachment;
    attachment_name = name_of attachment;
    attachment_type = kind_of attachment;
    read_at = none;
    edited_at = none;
    reply_to_id = reply_to_id;
  }

  -- The checks of `send`, in their order, and the reply that is kept.
  unfoldable pub send_checks :
      Cuid → Cuid → Text → Option Attachment → Option Cuid → Exec (Option Cuid)
  send_checks current_user_id to text attachment reply_to_id = do
    throw_if (is_empty (trim text) && not (is_given (url_of attachment))) empty_text
    throw_if (ltb max_text_length (length (trim text))) text_too_long
    throw_if (current_user_id == to) self_target
    recipient ← read (λ w. find_first (has_id to) w.users)
    throw_if (not (is_some recipient)) recipient_missing
    connected ← read (are_connected current_user_id to)
    throw_if (not connected) not_a_contact
    assert_allowed_attachment_url env (url_of attachment)
    read (validated_reply current_user_id to reply_to_id)

  unfoldable pub send :
      Cuid → Time → Cuid → Cuid → Text → Option Attachment → Option Cuid → Exec MessageView
  send new_id now current_user_id to text attachment reply_to_id = do
    reply ← send_checks current_user_id to text attachment reply_to_id
    let row = new_message new_id now current_user_id to text attachment reply
    write (λ w. record w { messages = row ∷ w.messages })
    view ← read (λ w. message_view w row)
    deliver current_user_id to text attachment view
    pure view

  abbrev pub edit_text : Time → Text → Message → Message
  edit_text now text m = record m { text = for_storage env text; edited_at = some now }

  -- Returns the readable new text.
  unfoldable pub edit : Time → Cuid → Cuid → Text → Exec Text
  edit now current_user_id message_id new_text = do
    found ← read (λ w. find_first (has_message_id message_id) w.messages)
    m ← some_or found not_found
    throw_if (not (m.sender_id == current_user_id)) forbidden
    throw_if (ltb edit_window_ms (now - m.created_at)) edit_window_over
    throw_if (is_empty (trim new_text)) empty_text
    throw_if (ltb max_text_length (length (trim new_text))) text_too_long
    write (λ w. record w {
      messages = update (has_message_id message_id) (edit_text now (trim new_text)) w.messages;
    })
    let shown = for_api env (for_storage env (trim new_text))
    send_to_user m.recipient_id (message_edited message_id shown now)
    pure shown
