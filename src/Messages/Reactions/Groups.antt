-- ===== src/Messages/Reactions/Groups.antt =====
-- `getReactions` counts each emoji of a message.
use corcy.Prelude.{
  ℕ, ◌+◌, ◌≡◌, refl, Bool, false, ◌&&◌, ◌||◌, List, [], ◌∷◌, ◌==◌, Text, text_eq, text_eq_iff,
  arith, if◌then◌else◌,
}
use corcy.Store.{Cuid, MessageReaction, World, ok}
use corcy.Store.Table.{find_many, count, exists}
use corcy.Messages.Reactions.{Group, add_to_groups, group_from, get_reactions, on_message}

-- The count that the groups show for an emoji, and the user's flag.
pub shown_count : Text → List Group → ℕ
shown_count e [] = 0
shown_count e (g ∷ gs) = let rest = shown_count e gs in if text_eq g.emoji e then g.count else rest

pub shown_flag : Text → List Group → Bool
shown_flag e [] = false
shown_flag e (g ∷ gs) =
    let rest = shown_flag e gs in if text_eq g.emoji e then g.user_reacted else rest

abbrev pub with_emoji : Text → MessageReaction → Bool
with_emoji e r = text_eq r.emoji e

abbrev pub by_user : Cuid → Text → MessageReaction → Bool
by_user user_id e r = text_eq r.emoji e && r.user_id == user_id

shown_count-add :
    (user_id : Cuid) (r : MessageReaction) (e : Text) (gs : List Group)
    → shown_count e (add_to_groups user_id r gs)
      ≡ shown_count e gs + (if text_eq r.emoji e then 1 else 0)
unfolding shown_count add_to_groups
shown_count-add user_id r e [] = ground arith
shown_count-add user_id r e (g ∷ gs) = ground (
  arith,
  text_eq_iff g.emoji r.emoji,
  text_eq_iff g.emoji e,
  text_eq_iff r.emoji e,
  shown_count-add user_id r e gs,
)

shown_flag-add :
    (user_id : Cuid) (r : MessageReaction) (e : Text) (gs : List Group)
    → shown_flag e (add_to_groups user_id r gs) ≡ (shown_flag e gs || by_user user_id e r)
unfolding shown_flag add_to_groups
shown_flag-add user_id r e [] = ground arith
shown_flag-add user_id r e (g ∷ gs) = ground (
  arith,
  text_eq_iff g.emoji r.emoji,
  text_eq_iff g.emoji e,
  text_eq_iff r.emoji e,
  shown_flag-add user_id r e gs,
)

shown-group_from :
    (user_id : Cuid) (e : Text) (gs : List Group) (rs : List MessageReaction)
    → (shown_count e (group_from user_id gs rs) ≡ shown_count e gs + count (with_emoji e) rs)
      × (shown_flag e (group_from user_id gs rs)
          ≡ (shown_flag e gs || exists (by_user user_id e) rs))
unfolding group_from count exists
shown-group_from user_id e gs [] = (omega arith, ground arith)
shown-group_from user_id e gs (r ∷ rs) =
    let (counts, flags) = shown-group_from user_id e (add_to_groups user_id r gs) rs in
    (
      ground (arith, counts, shown_count-add user_id r e gs),
      ground (arith, flags, shown_flag-add user_id r e gs),
    )

count-find_many :
    (p q : MessageReaction → Bool) (rs : List MessageReaction)
    → count p (find_many q rs) ≡ count (λ r. q r && p r) rs
unfolding count find_many
count-find_many p q [] = refl
count-find_many p q (r ∷ rs) = ground (arith, count-find_many p q rs)

exists-find_many :
    (p q : MessageReaction → Bool) (rs : List MessageReaction)
    → exists p (find_many q rs) ≡ exists (λ r. q r && p r) rs
unfolding exists find_many
exists-find_many p q [] = refl
exists-find_many p q (r ∷ rs) = ground (arith, exists-find_many p q rs)

-- For every emoji the listed count is the number of the message's reactions with it, and the flag
-- tells whether one of them is the user's.
pub get_reactions-counts :
    (user_id message_id : Cuid) (w : World) (gs : List Group) (e : Text)
    → (get_reactions user_id message_id w).0 ≡ ok gs
    → (shown_count e gs ≡ count (λ r. on_message message_id r && with_emoji e r) w.reactions)
      × (shown_flag e gs ≡ exists (λ r. on_message message_id r && by_user user_id e r) w.reactions)
get_reactions-counts user_id message_id w gs e h =
    let rows = find_many (on_message message_id) w.reactions in
    let same : gs ≡ group_from user_id [] rows = unfold get_reactions in ground arith in
    let (counts, flags) = shown-group_from user_id e [] rows in
    rw same (
      unfold shown_count in
          ground
            (arith, counts, count-find_many (with_emoji e) (on_message message_id) w.reactions),
      unfold shown_flag in
          ground (
            arith,
            flags,
            exists-find_many (by_user user_id e) (on_message message_id) w.reactions,
          ),
    )
