-- ===== src/Messages/Reactions/Toggle.antt =====
-- Toggling a reaction: the limit, the unique key, and the way back.
use corcy.Prelude.{
  ◌+◌, ◌≤◌, ◌≡◌, ◌⊎◌, refl, Bool, true, false, none, some, List, [], ◌∷◌, is_some, Text,
  text_eq_iff, text_eq_refl, trim, arith, Bool-cases, Option-cases, inl, inr,
}
use corcy.Store.{Cuid, MessageReaction, World, ok}
use corcy.Store.Table.{find_first, count, delete_many}
use corcy.Store.Table.Laws.{count-delete_many-le, is_some-find_first}
use corcy.Messages.{has_message_id}
use corcy.Messages.Reactions.{
  flip_reaction, toggle_reaction, on_message, is_reaction, has_reaction_id, max_reactions,
}

-- What the reactions table keeps: ids and keys occur once, and a message has at most 20 reactions.
pub record IsLimited (rs : List MessageReaction) : Type 0 where
  pub ids : (i : Cuid) → count (has_reaction_id i) rs ≤ 1
  pub keys : (m u : Cuid) (e : Text) → count (is_reaction m u e) rs ≤ 1
  pub limit : (m : Cuid) → count (on_message m) rs ≤ max_reactions

module _ (is_emoji : Text → Bool) (new_id user_id message_id : Cuid) (emoji : Text)
    (w : World) where
  abbrev pub after : List MessageReaction
  after = (toggle_reaction is_emoji new_id user_id message_id emoji w).1.reactions

  abbrev pub row : MessageReaction
  row = record { id = new_id; message_id = message_id; user_id = user_id; emoji = trim emoji }

  pub after_found :
      (r : MessageReaction)
      → find_first (is_reaction message_id user_id (trim emoji)) w.reactions ≡ some r
      → (after ≡ w.reactions) ⊎ (after ≡ delete_many (has_reaction_id r.id) w.reactions)
  unfolding toggle_reaction flip_reaction
  after_found r found = ground (arith, found)

  pub after_missing :
      find_first (is_reaction message_id user_id (trim emoji)) w.reactions ≡ none
      → (after ≡ w.reactions)
        ⊎ ((count (on_message message_id) w.reactions + 1 ≤ max_reactions)
            × (is_some (find_first (has_message_id message_id) w.messages) ≡ true)
            × (after ≡ row ∷ w.reactions))
  unfolding toggle_reaction flip_reaction
  after_missing missing = ground (arith, missing)

  pub messages-toggle_reaction :
      (toggle_reaction is_emoji new_id user_id message_id emoji w).1.messages ≡ w.messages
  unfolding toggle_reaction flip_reaction
  messages-toggle_reaction = ground arith

  row-IsLimited :
      IsLimited w.reactions
      → count (has_reaction_id new_id) w.reactions ≡ 0
      → count (is_reaction message_id user_id (trim emoji)) w.reactions ≡ 0
      → count (on_message message_id) w.reactions + 1 ≤ max_reactions
      → IsLimited (row ∷ w.reactions)
  unfolding count
  row-IsLimited h fresh none_yet room = record {
    ids = λ i. ground (arith, h.ids i, λ (e : new_id ≡ i). rw e at fresh);
    keys = λ m u e. elim (Bool-cases (is_reaction m u e row)) [
      | inl own ↦
          let at_m : message_id ≡ m = ground (arith, own) in
          let at_u : user_id ≡ u = ground (arith, own) in
          let at_e : trim emoji ≡ e = (text_eq_iff (trim emoji) e).0 (ground (arith, own)) in
          let zero_here : count (is_reaction m u e) w.reactions ≡ 0 =
            rw (← at_m, ← at_u, ← at_e) none_yet in
          ground (arith, zero_here)
      | inr other ↦ rw other (h.keys m u e)
    ];
    limit = λ m. ground (arith, h.limit m, λ (e : message_id ≡ m). rw e at room);
  }

  -- A toggle, whatever it answers, keeps the limit of 20 and the unique keys, where a new row gets a
  -- new id.
  pub toggle_reaction-IsLimited :
      count (has_reaction_id new_id) w.reactions ≡ 0 → IsLimited w.reactions → IsLimited after
  toggle_reaction-IsLimited fresh h =
      elim (Option-cases (find_first (is_reaction message_id user_id (trim emoji)) w.reactions)) [
        | inl missing ↦ elim (after_missing missing) [
          | inl same ↦ rw same h
          | inr (room, there, added) ↦
              let none_yet : count (is_reaction message_id user_id (trim emoji)) w.reactions ≡ 0 =
                ground (
                  arith,
                  missing,
                  is_some-find_first (is_reaction message_id user_id (trim emoji)) w.reactions,
                ) in
              rw added (row-IsLimited h fresh none_yet room)
        ]
        | inr (r, found) ↦ elim (after_found r found) [
          | inl same ↦ rw same h
          | inr removed ↦ rw removed (record {
            ids = λ i. omega (
              arith,
              h.ids i,
              count-delete_many-le (has_reaction_id i) (has_reaction_id r.id) w.reactions,
            );
            keys = λ m u e. omega (
              arith,
              h.keys m u e,
              count-delete_many-le (is_reaction m u e) (has_reaction_id r.id) w.reactions,
            );
            limit = λ m. omega (
              arith,
              h.limit m,
              count-delete_many-le (on_message m) (has_reaction_id r.id) w.reactions,
            );
          })
        ]
      ]

delete_none :
    (p : MessageReaction → Bool) (rs : List MessageReaction)
    → count p rs ≡ 0
    → delete_many p rs ≡ rs
unfolding count delete_many
delete_none p [] h = refl
delete_none p (r ∷ rs) h = ground (arith, delete_none p rs)

-- A second toggle takes back a reaction that the first one added under a new id, and leaves the
-- reactions as they were.
pub toggle_reaction_twice :
    (is_emoji : Text → Bool) (new_id other_id user_id message_id : Cuid) (emoji : Text) (w : World)
    → count (has_reaction_id new_id) w.reactions ≡ 0
    → (toggle_reaction is_emoji new_id user_id message_id emoji w).0 ≡ ok true
    → let v = (toggle_reaction is_emoji new_id user_id message_id emoji w).1 in
      ((toggle_reaction is_emoji other_id user_id message_id emoji v).0 ≡ ok false)
      × ((toggle_reaction is_emoji other_id user_id message_id emoji v).1.reactions ≡ w.reactions)
unfolding toggle_reaction flip_reaction find_first delete_many
toggle_reaction_twice is_emoji new_id other_id user_id message_id emoji w fresh e =
    ground
      (arith, e, text_eq_refl (trim emoji), delete_none (has_reaction_id new_id) w.reactions fresh)
