-- ===== src/Messages/Search.antt =====
-- `search` of the messages service.
use corcy.Prelude.{
  ℕ, min, ◌&&◌, Option, List, [], map, ◌==◌, ltb, or_else, length, take, Text, trim, if◌then◌else◌,
}
use corcy.Store.{Cuid, Time, Message, Exec, pure, read, ◌>>=◌}
use corcy.Store.Table.{find_many}
use corcy.Store.Order.{sort_desc}
use corcy.Crypto.{is_encryption_enabled}
use corcy.Env.{Env, for_api}
use corcy.Messages.{is_participant}

-- A result of `search`: the message and the other user of its conversation.
pub record SearchResult : Type 0 where
  pub message_id : Cuid
  pub peer_id : Cuid
  pub text : Text
  pub created_at : Time

pub data SearchReply : Type 0 where
  encrypted : SearchReply
  results : List SearchResult → SearchReply

module _ (env : Env) where
  abbrev search_result : Cuid → Message → SearchResult
  search_result user_id m = record {
    message_id = m.id;
    peer_id = if m.sender_id == user_id then m.recipient_id else m.sender_id;
    text = for_api env m.text;
    created_at = m.created_at;
  }

  unfoldable pub search_messages : Cuid → Text → Option ℕ → Exec SearchReply
  search_messages current_user_id query opt_limit =
      if is_encryption_enabled env.key_store
      then pure encrypted
      else if ltb (length (trim query)) 2
      then pure (results [])
      else do
        let limit = min (or_else opt_limit 20) 50
        found ← read (λ w. take limit (
            sort_desc (λ (m : Message). m.created_at)
              (find_many (λ m. is_participant current_user_id m && env.contains m.text (trim query))
                w.messages)))
        pure (results (map (search_result current_user_id) found))
