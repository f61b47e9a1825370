-- ===== src/Client/Activity.antt =====
-- frontend/store/chat-activity.ts: which conversations and rooms have unread messages, and how many.
-- The two pairs of fields, for direct messages and for rooms, are two values of `Unread`; an object
-- of counts is a list with one entry for a key.
pub mod Counted
use corcy.Prelude.{
  ℕ, ◌+◌, Bool, true, false, not, ◌||◌, Option, none, some, List, [], ◌∷◌, ◌==◌, or_else,
  if◌then◌else◌,
}
use corcy.Store.{Cuid}

abbrev pub Counts : Type 0
Counts = List (Cuid × ℕ)

pub record Unread : Type 0 where
  pub ids : List Cuid
  pub counts : Counts

pub record ChatActivity : Type 0 where
  pub direct : Unread
  pub room : Unread

-- `ids.includes(id)`
unfoldable pub includes_id : Cuid → List Cuid → Bool
includes_id id [] = false
includes_id id (x ∷ xs) = let rest = includes_id id xs in x == id || rest

-- `ids.includes(id) ? ids : [id, ...ids]`
abbrev pub with_id : Cuid → List Cuid → List Cuid
with_id id ids = if includes_id id ids then ids else id ∷ ids

-- `ids.filter((x) => x !== id)`
unfoldable pub without_id : Cuid → List Cuid → List Cuid
without_id id [] = []
without_id id (x ∷ xs) = let rest = without_id id xs in if x == id then rest else x ∷ rest

-- `counts[id]`
unfoldable pub count_at : Cuid → Counts → Option ℕ
count_at id [] = none
count_at id ((k, n) ∷ cs) = let rest = count_at id cs in if k == id then some n else rest

-- `{ ...counts, [id]: n }`
unfoldable pub set_count : Cuid → ℕ → Counts → Counts
set_count id n [] = (id, n) ∷ []
set_count id n ((k, m) ∷ cs) =
    let rest = (k, m) ∷ set_count id n cs in if k == id then (k, n) ∷ cs else rest

-- `const { [id]: _removed, ...rest } = counts`
unfoldable pub drop_count : Cuid → Counts → Counts
drop_count id [] = []
drop_count id ((k, m) ∷ cs) = let rest = drop_count id cs in if k == id then rest else (k, m) ∷ rest

abbrev pub add_unread : Cuid → Unread → Unread
add_unread id u = record u { ids = with_id id u.ids }

abbrev pub mark_as_seen : Cuid → Unread → Unread
mark_as_seen id u = record u { ids = without_id id u.ids }

abbrev pub increment : Cuid → Unread → Unread
increment id u = record {
  ids = with_id id u.ids;
  counts = set_count id (or_else (count_at id u.counts) 0 + 1) u.counts;
}

abbrev pub clear : Cuid → Unread → Unread
clear id u = record { ids = without_id id u.ids; counts = drop_count id u.counts }

abbrev nothing : Unread
nothing = record { ids = []; counts = [] }

abbrev pub no_activity : ChatActivity
no_activity = record { direct = nothing; room = nothing }

unfoldable pub set_unread_direct_ids : List Cuid → ChatActivity → ChatActivity
set_unread_direct_ids ids s = record s { direct = record s.direct { ids = ids } }

unfoldable pub set_unread_room_ids : List Cuid → ChatActivity → ChatActivity
set_unread_room_ids ids s = record s { room = record s.room { ids = ids } }

unfoldable pub add_unread_direct : Cuid → ChatActivity → ChatActivity
add_unread_direct peer_id s = record s { direct = add_unread peer_id s.direct }

unfoldable pub add_unread_room : Cuid → ChatActivity → ChatActivity
add_unread_room room_id s = record s { room = add_unread room_id s.room }

unfoldable pub mark_direct_as_read : Cuid → ChatActivity → ChatActivity
mark_direct_as_read peer_id s = record s { direct = mark_as_seen peer_id s.direct }

unfoldable pub mark_room_as_read : Cuid → ChatActivity → ChatActivity
mark_room_as_read room_id s = record s { room = mark_as_seen room_id s.room }

unfoldable pub increment_unread_direct : Cuid → ChatActivity → ChatActivity
increment_unread_direct peer_id s = record s { direct = increment peer_id s.direct }

unfoldable pub increment_unread_room : Cuid → ChatActivity → ChatActivity
increment_unread_room room_id s = record s { room = increment room_id s.room }

unfoldable pub clear_unread_direct : Cuid → ChatActivity → ChatActivity
clear_unread_direct peer_id s = record s { direct = clear peer_id s.direct }

unfoldable pub clear_unread_room : Cuid → ChatActivity → ChatActivity
clear_unread_room room_id s = record s { room = clear room_id s.room }

unfoldable pub clear_all_activity : ChatActivity → ChatActivity
clear_all_activity s = no_activity
