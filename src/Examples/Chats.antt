-- ===== src/Examples/Chats.antt =====
-- Messages between two contacts.
use corcy.Prelude.{
  ◌≡◌, ◌⊎◌, refl, Bool, true, false, ◌&&◌, none, List, [], ◌∷◌, All, Text, codes, trim, starts_with,
}
use corcy.Store.{Fault, MessageReaction, World, ok, err}
use corcy.Store.Table.{count, find_first, find_many, exists}
use corcy.Store.Order.{sort_desc}
use corcy.Crypto.{is_encryption_enabled, looks_encrypted_json, prepare_message_for_api}
use corcy.Connections.{are_connected}
use corcy.Messages.{MessagePage, get_thread, send, send_checks, deliver}
use corcy.Messages.Reactions.{
  Group, toggle_reaction, get_reactions, group_from, add_to_groups, on_message,
}
use corcy.Messages.Reactions.Groups.{
  shown_count, shown_flag, with_emoji, by_user, get_reactions-counts,
}
use corcy.Messages.Access.{MaySend, sent_view, stored, send_cases}
use corcy.Messages.Threads.{SeenBy, get_thread-in_thread}
use corcy.Messages.Reach.{
  sends, reacts, elsewhere, here, next, HasIntegrity, MessageReach-HasIntegrity,
  empty_world-HasIntegrity,
}
use corcy.Messages.Reactions.{flip_reaction}
use corcy.Messages.Reactions.Toggle.{toggle_reaction_twice}
use corcy.Examples.{contacts, chat, greeting, env, parse_payload}

abbrev hello : Text
hello = codes " hello "

abbrev is_emoji : Text → Bool
is_emoji t = true

MessageReach-HasIntegrity_example :
    HasIntegrity
      (toggle_reaction is_emoji 8 2 7 (codes "+") (send env 7 10 1 2 hello none none contacts).1).1
MessageReach-HasIntegrity_example =
    MessageReach-HasIntegrity {env = env} {is_emoji = is_emoji}
      (next
        (next {u = (send env 7 10 1 2 hello none none contacts).1}
          (next {u = contacts} here (elsewhere refl refl)) (sends 7 10 1 2 hello none none refl))
        (reacts 8 2 7 (codes "+") (unfold send send_checks deliver count trim find_first in refl)
          refl))
      empty_world-HasIntegrity

send_cases_example :
    (MaySend env 1 2 hello none contacts
      × (send env 7 10 1 2 hello none none contacts ≡ (
        ok (sent_view env 7 10 1 2 hello none none contacts),
        (deliver 1 2 hello none
            (sent_view env 7 10 1 2 hello none none contacts)
            (stored env 7 10 1 2 hello none none contacts)).1,
      )))
    ⊎ (¬ MaySend env 1 2 hello none contacts
        × ((f : Fault) × (send env 7 10 1 2 hello none none contacts ≡ (err f, contacts))))
send_cases_example = send_cases env 7 10 1 2 hello none none contacts

abbrev page : MessagePage
page = record {
  messages = record { message = greeting; reply_to = none } ∷ [];
  has_more = false;
  next_cursor = none;
}

get_thread-in_thread_example : (are_connected 2 1 chat ≡ true) × All (SeenBy 2 1) page.messages
get_thread-in_thread_example = get_thread-in_thread env 2 1 none none chat {p = page} (
    unfold get_thread find_first find_many sort_desc prepare_message_for_api is_encryption_enabled
      starts_with looks_encrypted_json parse_payload in
    refl)

abbrev thumbs : MessageReaction
thumbs = record { id = 8; message_id = 7; user_id = 2; emoji = codes "+" }

abbrev reacted : World
reacted = record chat { reactions = thumbs ∷ [] }

abbrev groups : List Group
groups = record { emoji = codes "+"; count = 1; user_reacted = true } ∷ []

get_reactions-counts_example :
    (shown_count (codes "+") groups
      ≡ count (λ r. on_message 7 r && with_emoji (codes "+") r) reacted.reactions)
    × (shown_flag (codes "+") groups
        ≡ exists (λ r. on_message 7 r && by_user 2 (codes "+") r) reacted.reactions)
get_reactions-counts_example =
    get_reactions-counts 2 7 reacted groups (codes "+")
      (unfold get_reactions find_first find_many group_from add_to_groups in refl)

toggle_reaction_twice_example :
    ((toggle_reaction is_emoji 9 2 7
        (codes "+")
        (toggle_reaction is_emoji 8 2 7 (codes "+") chat).1).0
      ≡ ok false)
    × ((toggle_reaction is_emoji 9 2 7
          (codes "+")
          (toggle_reaction is_emoji 8 2 7 (codes "+") chat).1).1.reactions
        ≡ [])
toggle_reaction_twice_example =
    toggle_reaction_twice is_emoji 8 9 2 7 (codes "+") chat (unfold count in refl)
      (unfold toggle_reaction flip_reaction find_first count trim in refl)
