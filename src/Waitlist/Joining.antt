-- ===== src/Waitlist/Joining.antt =====
-- What joining the waiting list keeps.
use corcy.Prelude.{
  ◌-◌, ◌≡◌, ◌≤◌, ◌⊎◌, inl, inr, false, Option-cases, Bool-cases, none, List, ◌∷◌, Text, text_eq,
  text_eq_sound, trim, arith,
}
use corcy.Store.{Cuid, Time, WaitlistEntry, World}
use corcy.Store.Table.{count, find_first}
use corcy.Store.Table.Laws.{is_some-find_first}
use corcy.Waitlist.{JoinData, join, new_entry, waits_as, from_ip, given, too_many, one_day_ms}

-- An address stands in the list once.
abbrev pub IsListed : List WaitlistEntry → Type 0
IsListed es = (m : Text) → count (waits_as m) es ≤ 1

module _ (to_lower : Text → Text) (now : Time) (new_id : Cuid) (request : JoinData)
    (w : World) where
  abbrev joined : World
  joined = (join to_lower now new_id request w).1

  abbrev email : Text
  email = trim (to_lower request.email)

  join-cases :
      (joined.waitlist ≡ w.waitlist)
      ⊎ ((joined.waitlist ≡ new_entry to_lower now new_id request ∷ w.waitlist)
          × (find_first (waits_as email) w.waitlist ≡ none)
          × (too_many now (given request.ip_address) w ≡ false))
  join-cases = elim (Option-cases (find_first (waits_as email) w.waitlist)) [
    | inl missing ↦ unfold join in ground (arith, missing)
    | inr (e, found) ↦ inl (unfold join in ground (arith, found))
  ]

  -- Joining keeps the addresses of the list different and an address of the internet at three
  -- requests within a day.
  pub join-IsListed :
      IsListed w.waitlist
      → ((ip : Text) → count (from_ip ip (now - one_day_ms)) w.waitlist ≤ 3)
      → IsListed joined.waitlist
        × ((ip : Text) → count (from_ip ip (now - one_day_ms)) joined.waitlist ≤ 3)
  join-IsListed h few = elim join-cases [
    | inl same ↦ rw same (h, few)
    | inr (more, new_email, room) ↦ rw more (
      (λ m. elim (Bool-cases (text_eq email m)) [
        | inl same ↦
            let e : email ≡ m = text_eq_sound email m same in
            unfold count in
            ground (arith, h m, is_some-find_first (waits_as email) w.waitlist, new_email, e)
        | inr other ↦ unfold count in ground (arith, h m, other)
      ]),
      λ ip. elim (Option-cases (given request.ip_address)) [
        | inl none_given ↦ unfold count in ground (arith, few ip, none_given)
        | inr (a, known) ↦ elim (Bool-cases (text_eq a ip)) [
          | inl same ↦
              let e : a ≡ ip = text_eq_sound a ip same in
              unfold count in ground (arith, few ip, known, room, e)
          | inr other ↦ unfold count in ground (arith, few ip, known, other)
        ]
      ],
    )
  ]
