-- ===== src/Messages/Integrity.antt =====
-- References between rows: each reply and each reaction names a message that is there.
use corcy.Prelude.{
  sym, ◌∙◌, ◌<◌, ◌≡◌, ◌≢◌, ◌⊎◌, inl, inr, refl, Bool, ◌&&◌, Option, none, some, List, [], ◌∷◌, map,
  arith, All, All-map, All-map_list, Text, Option-cases, trim,
}
use corcy.Store.{Cuid, Time, Message, MessageReaction, World}
use corcy.Store.Table.{count, find_first, update, delete_many}
use corcy.Store.Table.Laws.{
  count-update, count_split, All-update, All-delete_many, find_first-holds, is_some-find_first,
  count-first,
}
use corcy.Env.{Env}
use corcy.Messages.{
  Attachment, has_message_id, in_thread, new_message, validated_reply, send, mark_as_read, edit,
  edit_text, remove, delete_message, forget_reply,
}
use corcy.Messages.Reactions.Toggle.{after_found, after_missing, messages-toggle_reaction}
use corcy.Messages.Access.{send_cases, deliver_tables}
use corcy.Messages.Reactions.{toggle_reaction, on_message, has_reaction_id, is_reaction}

-- A message with the id is in the table.
abbrev pub Present : List Message → Cuid → Type 0
Present ms i = 0 < count (has_message_id i) ms

abbrev pub RepliesTo : List Message → Message → Type 0
RepliesTo ms m = (r : Cuid) → m.reply_to_id ≡ some r → Present ms r

abbrev pub ReactsTo : List Message → MessageReaction → Type 0
ReactsTo ms r = Present ms r.message_id

pub record IsLinked (ms : List Message) (rs : List MessageReaction) : Type 0 where
  pub replies : All (RepliesTo ms) ms
  pub reactions : All (ReactsTo ms) rs

-- Present rows stay present under a table that has no fewer of each id.
IsLinked-rows :
    (ms ns : List Message) (rs : List MessageReaction)
    → ((i : Cuid) → Present ms i → Present ns i)
    → All (RepliesTo ms) ns
    → All (ReactsTo ms) rs
    → IsLinked ns rs
IsLinked-rows ms ns rs keep replies reactions = record {
  replies = All-map ns replies (λ m h r e. keep r (h r e));
  reactions = All-map rs reactions (λ r h. keep r.message_id h);
}

module _ (message_id : Cuid) (ms : List Message) (rs : List MessageReaction)
    (h : IsLinked ms rs) where
  abbrev left : List Message
  left = map (forget_reply message_id) (delete_many (has_message_id message_id) ms)

  count-map_forget :
      (i : Cuid) (xs : List Message)
      → count (has_message_id i) (map (forget_reply message_id) xs) ≡ count (has_message_id i) xs
  unfolding count
  count-map_forget i [] = refl
  count-map_forget i (x ∷ xs) = ground (arith, count-map_forget i xs)

  count_other :
      (i : Cuid) (xs : List Message)
      → message_id ≢ i
      → count (λ x. has_message_id i x && has_message_id message_id x) xs ≡ 0
  unfolding count
  count_other i [] d = refl
  count_other i (x ∷ xs) d = ground (arith, count_other i xs d)

  Present-left : (i : Cuid) → message_id ≢ i → Present ms i → Present left i
  Present-left i d p = omega (
    arith,
    p,
    count-map_forget i (delete_many (has_message_id message_id) ms),
    count_split (has_message_id i) (has_message_id message_id) ms,
    count_other i ms d,
  )

  delete-IsLinked : IsLinked left (delete_many (on_message message_id) rs)
  delete-IsLinked = record {
    replies = All-map_list (RepliesTo left) (forget_reply message_id) _ (
        All-map _ (All-delete_many (RepliesTo ms) (has_message_id message_id) ms h.replies)
          (λ m k r e. Present-left r (ground (arith, e)) (k.0 r (ground (arith, e)))));
    reactions =
        All-map _ (All-delete_many (ReactsTo ms) (on_message message_id) rs h.reactions)
          (λ r k. Present-left r.message_id (ground (arith, k.1)) k.0);
  }

abbrev pub Linked : World → Type 0
Linked w = IsLinked w.messages w.reactions

-- A change of a message's other columns.
update-IsLinked :
    (q : Message → Bool) (f : Message → Message) (ms : List Message) (rs : List MessageReaction)
    → ((m : Message) → (f m).id ≡ m.id)
    → ((m : Message) → (f m).reply_to_id ≡ m.reply_to_id)
    → IsLinked ms rs
    → IsLinked (update q f ms) rs
update-IsLinked q f ms rs same_id same_reply h =
    IsLinked-rows ms (update q f ms) rs
      (λ i p. rw (count-update (has_message_id i) q f ms (λ m. rw (same_id m))) p)
      (All-update {Q = RepliesTo ms} q f ms h.replies (λ m k _ r e. k r (sym (same_reply m) ∙ e))
        (λ m k _. k))
      h.reactions

validated_reply-Present :
    (user_id to : Cuid) (reply : Option Cuid) (w : World) (r : Cuid)
    → validated_reply user_id to reply w ≡ some r
    → Present w.messages r
validated_reply-Present user_id to none w r e = absurd (cc e)
validated_reply-Present user_id to (some x) w r e =
    elim (Option-cases
      (find_first (λ m. has_message_id x m && in_thread user_id to m) w.messages)) [
        | inl missing ↦ absurd (ground (arith, missing, e))
        | inr (m, found) ↦ ground (
          arith,
          found,
          e,
          count-first (λ m. has_message_id x m && in_thread user_id to m) (has_message_id r)
              w.messages m found,
          find_first-holds (λ m. has_message_id x m && in_thread user_id to m) w.messages m found,
        )
      ]

pub send-Linked :
    (env : Env) (new_id : Cuid) (now : Time) (user_id to : Cuid) (text : Text)
    (attachment : Option Attachment) (reply : Option Cuid) (w : World)
    → Linked w
    → Linked (send env new_id now user_id to text attachment reply w).1
send-Linked env new_id now user_id to text attachment reply w h =
    elim (send_cases env new_id now user_id to text attachment reply w) [
      | inr (may_not, (f, refused)) ↦ rw refused h
      | inl (may, sent) ↦
          let row =
            new_message env new_id now user_id to text attachment
              (validated_reply user_id to reply w) in
          let (ms, rs) = deliver_tables env new_id now user_id to text attachment reply w in
          rw (sent, ms, rs)
            (IsLinked-rows w.messages (row ∷ w.messages) w.reactions
              (λ i p. unfold count in ground (arith, p))
              (validated_reply-Present user_id to reply w, h.replies) h.reactions)
    ]

module _ (env : Env) (now : Time) (user_id message_id : Cuid) (w : World) (h : Linked w) where
  pub mark_as_read-Linked : Linked (mark_as_read now user_id message_id w).1
  mark_as_read-Linked = elim cases [
    | inl same ↦ rw same h
    | inr (ms, rs) ↦
        rw (ms, rs)
          (update-IsLinked (has_message_id message_id) read_it w.messages w.reactions (λ m. refl)
            (λ m. refl) h)
  ]
    where
      read_it : Message → Message
      read_it r = record r { read_at = some now }

      cases :
          ((mark_as_read now user_id message_id w).1 ≡ w)
          ⊎ (((mark_as_read now user_id message_id w).1.messages
                ≡ update (has_message_id message_id) read_it w.messages)
              × ((mark_as_read now user_id message_id w).1.reactions ≡ w.reactions))
      cases = unfold mark_as_read in ground arith

  pub edit-Linked : (text : Text) → Linked (edit env now user_id message_id text w).1
  edit-Linked text = elim cases [
    | inl same ↦ rw same h
    | inr (ms, rs) ↦
        rw (ms, rs)
          (update-IsLinked (has_message_id message_id) (edit_text env now (trim text)) w.messages
            w.reactions (λ m. refl) (λ m. refl) h)
  ]
    where
      cases :
          ((edit env now user_id message_id text w).1 ≡ w)
          ⊎ (((edit env now user_id message_id text w).1.messages
                ≡ update (has_message_id message_id) (edit_text env now (trim text)) w.messages)
              × ((edit env now user_id message_id text w).1.reactions ≡ w.reactions))
      cases = unfold edit in ground arith

  pub remove-Linked : Linked (remove user_id message_id w).1
  remove-Linked = elim cases [
    | inl same ↦ rw same h
    | inr done ↦ rw done (delete-IsLinked message_id w.messages w.reactions h)
  ]
    where
      cases :
          ((remove user_id message_id w).1 ≡ w)
          ⊎ ((remove user_id message_id w).1 ≡ delete_message message_id w)
      cases = unfold remove in ground arith

module _ (is_emoji : Text → Bool) (new_id user_id message_id : Cuid) (emoji : Text) (w : World)
    (h : Linked w) where
  pub toggle_reaction-Linked : Linked (toggle_reaction is_emoji new_id user_id message_id emoji w).1
  toggle_reaction-Linked =
      rw (messages-toggle_reaction is_emoji new_id user_id message_id emoji w) (record {
        replies = h.replies;
        reactions =
            elim (Option-cases
              (find_first (is_reaction message_id user_id (trim emoji)) w.reactions)) [
                | inl missing ↦
                    elim (after_missing is_emoji new_id user_id message_id emoji w missing) [
                      | inl same ↦ rw same h.reactions
                      | inr (room, there, added) ↦ rw added (
                        ground (
                          arith,
                          there,
                          is_some-find_first (has_message_id message_id) w.messages,
                        ),
                        h.reactions,
                      )
                    ]
                | inr (r, found) ↦
                    elim (after_found is_emoji new_id user_id message_id emoji w r found) [
                      | inl same ↦ rw same h.reactions
                      | inr removed ↦ rw removed (
                          All-map _
                            (All-delete_many (ReactsTo w.messages) (has_reaction_id r.id)
                              w.reactions h.reactions)
                            (λ x k. k.0))
                    ]
              ];
      })
