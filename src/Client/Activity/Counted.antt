-- ===== src/Client/Activity/Counted.antt =====
-- The counters and the list of unread messages against the events that happened.
use corcy.Prelude.{
  ℕ, suc, ◌+◌, ◌≡◌, refl, ◌∙◌, inl, inr, ap, not, ◌||◌, ◌&&◌, ◌==◌, Bool, true, false, none, some,
  List, [], ◌∷◌, or_else, arith, Bool-cases, if◌then◌else◌,
}
use corcy.Store.{Cuid}
use corcy.Client.Activity.{
  Counts, Unread, ChatActivity, includes_id, with_id, without_id, count_at, set_count, drop_count,
  no_activity, increment, clear, increment_unread_direct, clear_unread_direct,
  increment_unread_room, clear_unread_room, clear_all_activity, add_unread, mark_as_seen,
  add_unread_direct, add_unread_room, mark_direct_as_read, mark_room_as_read, set_unread_direct_ids,
  set_unread_room_ids,
}

-- The operations of the store; `seen` are markDirectAsRead and markRoomAsRead, `lists` set the ids.
pub data ActivityEvent : Type 0 where
  peer_counts peer_clears peer_adds peer_seen : Cuid → ActivityEvent
  room_counts room_clears room_adds room_seen : Cuid → ActivityEvent
  peer_lists room_lists : List Cuid → ActivityEvent
  all_clear : ActivityEvent

unfoldable pub react : ActivityEvent → ChatActivity → ChatActivity
unfolding increment_unread_direct clear_unread_direct add_unread_direct mark_direct_as_read
    increment_unread_room clear_unread_room add_unread_room mark_room_as_read set_unread_direct_ids
    set_unread_room_ids clear_all_activity
react (peer_counts p) s = increment_unread_direct p s
react (peer_clears p) s = clear_unread_direct p s
react (peer_adds p) s = add_unread_direct p s
react (peer_seen p) s = mark_direct_as_read p s
react (room_counts r) s = increment_unread_room r s
react (room_clears r) s = clear_unread_room r s
react (room_adds r) s = add_unread_room r s
react (room_seen r) s = mark_room_as_read r s
react (peer_lists ids) s = set_unread_direct_ids ids s
react (room_lists ids) s = set_unread_room_ids ids s
react all_clear s = clear_all_activity s

-- The latest event is the head.
unfoldable pub react_all : List ActivityEvent → ChatActivity
react_all [] = no_activity
react_all (e ∷ es) = react e (react_all es)

-- The increments of the peer's counter since it was last cleared.
unfoldable pub unread_since : Cuid → List ActivityEvent → ℕ
unread_since p [] = 0
unread_since p (e ∷ es) =
    let before = unread_since p es in
    elim e [
      | peer_counts q ↦ if q == p then suc before else before
      | peer_clears q ↦ if q == p then 0 else before
      | all_clear ↦ 0
      | _ ↦ before
    ]

-- Whether the last event that named the peer, or named all of them, lists it.
unfoldable pub is_listed : Cuid → List ActivityEvent → Bool
is_listed p [] = false
is_listed p (e ∷ es) =
    let before = is_listed p es in
    elim e [
      | peer_counts q ↦ if q == p then true else before
      | peer_adds q ↦ if q == p then true else before
      | peer_clears q ↦ if q == p then false else before
      | peer_seen q ↦ if q == p then false else before
      | peer_lists ids ↦ includes_id p ids
      | all_clear ↦ false
      | _ ↦ before
    ]

includes-without_id :
    (p q : Cuid) (ids : List Cuid)
    → includes_id p (without_id q ids) ≡ (not (q == p) && includes_id p ids)
unfolding includes_id without_id
includes-without_id p q [] = ground arith
includes-without_id p q (x ∷ xs) = ground (arith, includes-without_id p q xs)

includes-with_id :
    (p q : Cuid) (ids : List Cuid) → includes_id p (with_id q ids) ≡ (q == p || includes_id p ids)
unfolding includes_id
includes-with_id p q ids = ground (arith, λ (e : q ≡ p). ap (λ (x : ℕ). includes_id x ids) e)

count-set_count :
    (p q : Cuid) (n : ℕ) (cs : Counts)
    → count_at p (set_count q n cs) ≡ (if q == p then some n else count_at p cs)
unfolding count_at set_count
count-set_count p q n [] = ground arith
count-set_count p q n ((k, m) ∷ cs) = ground (arith, count-set_count p q n cs)

count-drop_count :
    (p q : Cuid) (cs : Counts)
    → count_at p (drop_count q cs) ≡ (if q == p then none else count_at p cs)
unfolding count_at drop_count
count-drop_count p q [] = ground arith
count-drop_count p q ((k, m) ∷ cs) = ground (arith, count-drop_count p q cs)

abbrev pub Tracks : Cuid → Unread → ℕ → Bool → Type 0
Tracks p u n listed = (or_else (count_at p u.counts) 0 ≡ n) × (includes_id p u.ids ≡ listed)

increment-Tracks :
    (p q : Cuid) (u : Unread) (n : ℕ) (l : Bool)
    → Tracks p u n l
    → Tracks p (increment q u) (if q == p then suc n else n) (if q == p then true else l)
increment-Tracks p q u n l (counted, listed) =
    let c = count-set_count p q (or_else (count_at q u.counts) 0 + 1) u.counts in
    let i = includes-with_id p q u.ids in
    elim (Bool-cases (q == p)) [
      | inl same ↦
          let e : q ≡ p = ground (arith, same) in
          let before : or_else (count_at q u.counts) 0 ≡ n =
            ap (λ (x : ℕ). or_else (count_at x u.counts) 0) e ∙ counted in
          (ground (arith, c, same, before), ground (arith, i, same))
      | inr other ↦ (ground (arith, c, other, counted), ground (arith, i, other, listed))
    ]

clear-Tracks :
    (p q : Cuid) (u : Unread) (n : ℕ) (l : Bool)
    → Tracks p u n l
    → Tracks p (clear q u) (if q == p then 0 else n) (if q == p then false else l)
clear-Tracks p q u n l (counted, listed) =
    let c = count-drop_count p q u.counts in
    let i = includes-without_id p q u.ids in
    elim (Bool-cases (q == p)) [
      | inl same ↦ (ground (arith, c, same), ground (arith, i, same))
      | inr other ↦ (ground (arith, c, other, counted), ground (arith, i, other, listed))
    ]

add-Tracks :
    (p q : Cuid) (u : Unread) (n : ℕ) (l : Bool)
    → Tracks p u n l
    → Tracks p (add_unread q u) n (if q == p then true else l)
add-Tracks p q u n l (counted, listed) =
    (counted, ground (arith, includes-with_id p q u.ids, listed))

seen-Tracks :
    (p q : Cuid) (u : Unread) (n : ℕ) (l : Bool)
    → Tracks p u n l
    → Tracks p (mark_as_seen q u) n (if q == p then false else l)
seen-Tracks p q u n l (counted, listed) =
    (counted, ground (arith, includes-without_id p q u.ids, listed))

nothing-Tracks : (p : Cuid) → Tracks p no_activity.direct 0 false
unfolding count_at includes_id
nothing-Tracks p = (refl, refl)

-- After any operations of the store, the counter of a peer is the number of increments since it was
-- last cleared, and the peer is listed as unread exactly if the last operation that adds it, takes it
-- out or sets the whole list leaves it in.
pub react_all-counts :
    (p : Cuid) (es : List ActivityEvent)
    → (or_else (count_at p (react_all es).direct.counts) 0 ≡ unread_since p es)
      × (includes_id p (react_all es).direct.ids ≡ is_listed p es)
unfolding react_all react unread_since is_listed increment_unread_direct clear_unread_direct
    add_unread_direct mark_direct_as_read increment_unread_room clear_unread_room add_unread_room
    mark_room_as_read set_unread_direct_ids set_unread_room_ids clear_all_activity
react_all-counts p [] = nothing-Tracks p
react_all-counts p (peer_counts q ∷ es) =
    increment-Tracks p q (react_all es).direct (unread_since p es) (is_listed p es)
      (react_all-counts p es)
react_all-counts p (peer_clears q ∷ es) =
    clear-Tracks p q (react_all es).direct (unread_since p es) (is_listed p es)
      (react_all-counts p es)
react_all-counts p (peer_adds q ∷ es) =
    add-Tracks p q (react_all es).direct (unread_since p es) (is_listed p es)
      (react_all-counts p es)
react_all-counts p (peer_seen q ∷ es) =
    seen-Tracks p q (react_all es).direct (unread_since p es) (is_listed p es)
      (react_all-counts p es)
react_all-counts p (peer_lists ids ∷ es) = ((react_all-counts p es).0, refl)
react_all-counts p (room_counts _ ∷ es) = react_all-counts p es
react_all-counts p (room_clears _ ∷ es) = react_all-counts p es
react_all-counts p (room_adds _ ∷ es) = react_all-counts p es
react_all-counts p (room_seen _ ∷ es) = react_all-counts p es
react_all-counts p (room_lists _ ∷ es) = react_all-counts p es
react_all-counts p (all_clear ∷ es) = nothing-Tracks p
