-- ===== src/Messages/Reach.antt =====
-- Runs of the message operations.
use corcy.Prelude.{◌≡◌, ◌⊎◌, inl, inr, arith, Bool, Text, Option}
use corcy.Store.{Cuid, Time, World, empty_world}
use corcy.Store.Table.{count, delete_many}
use corcy.Store.Table.Laws.{count-delete_many-le}
use corcy.Env.{Env}
use corcy.Messages.{Attachment, send, mark_as_read, edit, remove}
use corcy.Messages.Access.{send_cases, deliver_tables}
use corcy.Messages.Integrity.{
  Linked, send-Linked, mark_as_read-Linked, edit-Linked, remove-Linked, toggle_reaction-Linked,
}
use corcy.Messages.Reactions.{toggle_reaction, has_reaction_id, is_reaction, on_message}
use corcy.Messages.Reactions.Toggle.{IsLimited, toggle_reaction-IsLimited}

pub data MessageStep (env : Env) (is_emoji : Text → Bool) (w : World) (v : World) : Type 0 where
  sends :
      (new_id : Cuid) (now : Time) (user_id to : Cuid) (text : Text)
      (attachment : Option Attachment) (reply : Option Cuid)
      → v ≡ (send env new_id now user_id to text attachment reply w).1
      → MessageStep env is_emoji w v
  reads :
      (now : Time) (user_id message_id : Cuid)
      → v ≡ (mark_as_read now user_id message_id w).1
      → MessageStep env is_emoji w v
  edits :
      (now : Time) (user_id message_id : Cuid) (text : Text)
      → v ≡ (edit env now user_id message_id text w).1
      → MessageStep env is_emoji w v
  deletes :
      (user_id message_id : Cuid)
      → v ≡ (remove user_id message_id w).1
      → MessageStep env is_emoji w v
  reacts :
      (new_id user_id message_id : Cuid) (emoji : Text)
      → count (has_reaction_id new_id) w.reactions ≡ 0
      → v ≡ (toggle_reaction is_emoji new_id user_id message_id emoji w).1
      → MessageStep env is_emoji w v
  elsewhere : v.messages ≡ w.messages → v.reactions ≡ w.reactions → MessageStep env is_emoji w v

pub data MessageReach (env : Env) (is_emoji : Text → Bool) (w : World) : World → Type 0 where
  here : MessageReach env is_emoji w w
  next :
      {v u : World}
      → MessageReach env is_emoji w v
      → MessageStep env is_emoji v u
      → MessageReach env is_emoji w u

pub record HasIntegrity (w : World) : Type 0 where
  pub linked : Linked w
  pub limited : IsLimited w.reactions

-- Messages other than reactions keep the reactions, or delete some.
reactions-mark_as_read :
    (now : Time) (user_id message_id : Cuid) (w : World)
    → (mark_as_read now user_id message_id w).1.reactions ≡ w.reactions
unfolding mark_as_read
reactions-mark_as_read now user_id message_id w = ground arith

reactions-edit :
    (env : Env) (now : Time) (user_id message_id : Cuid) (text : Text) (w : World)
    → (edit env now user_id message_id text w).1.reactions ≡ w.reactions
unfolding edit
reactions-edit env now user_id message_id text w = ground arith

reactions-send :
    (env : Env) (new_id : Cuid) (now : Time) (user_id to : Cuid) (text : Text)
    (attachment : Option Attachment) (reply : Option Cuid) (w : World)
    → (send env new_id now user_id to text attachment reply w).1.reactions ≡ w.reactions
reactions-send env new_id now user_id to text attachment reply w =
    elim (send_cases env new_id now user_id to text attachment reply w) [
      | inr (may_not, (f, refused)) ↦ rw refused
      | inl (may, sent) ↦
          rw sent ((deliver_tables env new_id now user_id to text attachment reply w).1)
    ]

remove-IsLimited :
    (user_id message_id : Cuid) (w : World)
    → IsLimited w.reactions
    → IsLimited (remove user_id message_id w).1.reactions
remove-IsLimited user_id message_id w h = elim cases [
  | inl same ↦ rw same h
  | inr gone ↦ rw gone (record {
    ids = λ i. omega (
      arith,
      h.ids i,
      count-delete_many-le (has_reaction_id i) (on_message message_id) w.reactions,
    );
    keys = λ m u e. omega (
      arith,
      h.keys m u e,
      count-delete_many-le (is_reaction m u e) (on_message message_id) w.reactions,
    );
    limit = λ m.
        omega (
          arith,
          h.limit m,
          count-delete_many-le (on_message m) (on_message message_id) w.reactions,
        );
  })
]
  where
    cases :
        ((remove user_id message_id w).1.reactions ≡ w.reactions)
        ⊎ ((remove user_id message_id w).1.reactions
            ≡ delete_many (on_message message_id) w.reactions)
    cases = unfold remove in ground arith

module _ {env : Env} {is_emoji : Text → Bool} where
  MessageStep-HasIntegrity :
      {w v : World} → MessageStep env is_emoji w v → HasIntegrity w → HasIntegrity v
  MessageStep-HasIntegrity {w} (sends n t u p x a r e) h = rw e (record {
    linked = send-Linked env n t u p x a r w h.linked;
    limited = rw (reactions-send env n t u p x a r w) h.limited;
  })
  MessageStep-HasIntegrity {w} (reads t u m e) h = rw e (record {
    linked = mark_as_read-Linked env t u m w h.linked;
    limited = rw (reactions-mark_as_read t u m w) h.limited;
  })
  MessageStep-HasIntegrity {w} (edits t u m x e) h = rw e (record {
    linked = edit-Linked env t u m w h.linked x;
    limited = rw (reactions-edit env t u m x w) h.limited;
  })
  MessageStep-HasIntegrity {w} (deletes u m e) h = rw e (record {
    linked = remove-Linked env 0 u m w h.linked;
    limited = remove-IsLimited u m w h.limited;
  })
  MessageStep-HasIntegrity {w} (reacts n u m x fresh e) h = rw e (record {
    linked = toggle_reaction-Linked is_emoji n u m x w h.linked;
    limited = toggle_reaction-IsLimited is_emoji n u m x w fresh h.limited;
  })
  MessageStep-HasIntegrity (elsewhere ms rs) h = record {
    linked = rw (ms, rs) h.linked;
    limited = rw rs h.limited;
  }

  -- Whatever message operations ran, successful or not, every reply and every reaction names a
  -- message that is there, no reaction occurs twice, and no message has more than 20 reactions, if
  -- so at the start and new reactions get new ids.
  pub MessageReach-HasIntegrity :
      {w v : World} → MessageReach env is_emoji w v → HasIntegrity w → HasIntegrity v
  MessageReach-HasIntegrity here h = h
  MessageReach-HasIntegrity (next r s) h =
      MessageStep-HasIntegrity s (MessageReach-HasIntegrity r h)

pub empty_world-HasIntegrity : HasIntegrity empty_world
unfolding count
empty_world-HasIntegrity = record {
  linked = record { replies = tt; reactions = tt };
  limited = record {
    ids = λ i. omega arith;
    keys = λ m u e. omega arith;
    limit = λ m. omega arith;
  };
}
