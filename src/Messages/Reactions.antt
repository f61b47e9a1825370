-- ===== src/Messages/Reactions.antt =====
-- backend/src/messages/reactions.service.ts. The test of EMOJI_REGEX is the parameter `is_emoji`.
pub mod Toggle
pub mod Groups
use corcy.Prelude.{
  ℕ, ◌+◌, Bool, true, false, not, ◌&&◌, ◌||◌, Option, none, some, List, [], ◌∷◌, ◌==◌, ltb, leb,
  is_some, length, Text, text_eq, is_empty, trim, if◌then◌else◌,
}
use corcy.Store.{
  Cuid, Message, MessageReaction, World, reaction_updated, not_found, forbidden, bad_emoji,
  reaction_limit, Exec, pure, read, write, throw_if, some_or, continue, send_to_user, ◌>>=◌, ◌>>◌,
}
use corcy.Store.Table.{find_first, find_many, count, delete_many}
use corcy.Messages.{has_message_id, is_participant}

abbrev pub on_message : Cuid → MessageReaction → Bool
on_message message_id r = r.message_id == message_id

-- The unique key of a reaction.
abbrev pub is_reaction : Cuid → Cuid → Text → MessageReaction → Bool
is_reaction message_id user_id emoji r =
    r.message_id == message_id && r.user_id == user_id && text_eq r.emoji emoji

abbrev pub has_reaction_id : Cuid → MessageReaction → Bool
has_reaction_id id r = r.id == id

abbrev pub max_reactions : ℕ
max_reactions = 20

-- The two branches on an existing reaction; true for 'added'.
unfoldable pub flip_reaction : Cuid → Cuid → Cuid → Text → Exec Bool
flip_reaction new_id user_id message_id emoji = do
  existing ← read (λ w. find_first (is_reaction message_id user_id emoji) w.reactions)
  elim existing [
    | some r ↦ do
      write (λ w. record w { reactions = delete_many (has_reaction_id r.id) w.reactions })
      pure false
    | none ↦ do
      n ← read (λ w. count (on_message message_id) w.reactions)
      throw_if (leb max_reactions n) reaction_limit
      write (λ w. record w {
        reactions =
            record { id = new_id; message_id = message_id; user_id = user_id; emoji = emoji }
            ∷ w.reactions;
      })
      pure true
  ]

unfoldable pub toggle_reaction : (Text → Bool) → Cuid → Cuid → Cuid → Text → Exec Bool
toggle_reaction is_emoji new_id user_id message_id emoji = do
  throw_if (is_empty (trim emoji) || ltb 10 (length (trim emoji))) bad_emoji
  throw_if (not (is_emoji (trim emoji))) bad_emoji
  found ← read (λ w. find_first (has_message_id message_id) w.messages)
  m ← some_or found not_found
  throw_if (not (is_participant user_id m)) forbidden
  added ← flip_reaction new_id user_id message_id (trim emoji)
  let event = reaction_updated message_id (trim emoji) user_id added
  send_to_user user_id event
  send_to_user (if m.sender_id == user_id then m.recipient_id else m.sender_id) event
  pure added

pub record Group : Type 0 where
  pub emoji : Text
  pub count : ℕ
  pub user_reacted : Bool

-- `grouped.get(emoji) ?? { count: 0, … }` and `grouped.set`, on the entries in their order.
unfoldable pub add_to_groups : Cuid → MessageReaction → List Group → List Group
add_to_groups user_id r [] =
    record { emoji = r.emoji; count = 1; user_reacted = r.user_id == user_id } ∷ []
add_to_groups user_id r (g ∷ gs) =
    let rest = g ∷ add_to_groups user_id r gs in
    if text_eq g.emoji r.emoji
    then record g { count = g.count + 1; user_reacted = g.user_reacted || r.user_id == user_id }
      ∷ gs
    else rest

-- The loop of `getReactions`.
unfoldable pub group_from : Cuid → List Group → List MessageReaction → List Group
group_from user_id gs [] = gs
group_from user_id gs (r ∷ rs) = group_from user_id (add_to_groups user_id r gs) rs

unfoldable pub get_reactions : Cuid → Cuid → Exec (List Group)
get_reactions user_id message_id = do
  found ← read (λ w. find_first (has_message_id message_id) w.messages)
  m ← some_or found not_found
  throw_if (not (is_participant user_id m)) forbidden
  read (λ w. group_from user_id [] (find_many (on_message message_id) w.reactions))
