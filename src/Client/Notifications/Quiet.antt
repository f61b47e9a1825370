-- ===== src/Client/Notifications/Quiet.antt =====
-- What is switched off shows nothing unread.
use corcy.Prelude.{
  ℕ, ◌≡◌, ◌≤◌, refl, inl, inr, Bool, true, false, not, ◌||◌, ◌==◌, List, [], ◌∷◌, Text, All,
  All-map, All-map_list, All-take, map, length, length-take, arith, Bool-cases,
}
use corcy.Store.{Time}
use corcy.Client.Notifications.{
  NotificationType, AppNotification, Categories, is_on, set_category, same_type, NotificationsState,
  seen, seen_of, seen_at, NotificationAction, adds, enables, enables_category, reads_all, clears,
  reads, add_notification, set_enabled, set_category_enabled, mark_all_as_read, mark_item_as_read,
  clear_all, perform, perform_all,
}

-- Unread only if notifications and their category are on.
abbrev pub Shown : Bool → Categories → AppNotification → Type 0
Shown on c item = item.read ≡ false → (on ≡ true) × (is_on item.kind c ≡ true)

pub record IsQuiet (s : NotificationsState) : Type 0 where
  pub few : length s.items ≤ 50
  pub shown : All (Shown s.enabled s.category_enabled) s.items

length-map : {A B : Type 0} (f : A → B) (xs : List A) → length (map f xs) ≡ length xs
length-map f [] = refl
length-map f (x ∷ xs) = omega (arith, length-map f xs)

-- A change of the items that marks some of them as read.
mapped-IsQuiet :
    (f : AppNotification → AppNotification) (on : Bool) (c : Categories) (s : NotificationsState)
    → ((x : AppNotification) → Shown s.enabled s.category_enabled x → Shown on c (f x))
    → IsQuiet s
    → IsQuiet (record { items = map f s.items; enabled = on; category_enabled = c })
mapped-IsQuiet f on c s keeps h = record {
  few = omega (arith, h.few, length-map f s.items);
  shown = All-map_list (Shown on c) f s.items (All-map s.items h.shown keeps);
}

seen-Shown : (on : Bool) (c : Categories) (x : AppNotification) → Shown on c (seen x)
seen-Shown on c x unread = ground (arith, unread)

seen_at-Shown :
    (id : ℕ) (on : Bool) (c : Categories) (x : AppNotification)
    → Shown on c x
    → Shown on c (seen_at id x)
seen_at-Shown id on c x h unread = elim (Bool-cases (x.id == id)) [
  | inl same ↦ absurd (ground (arith, same, unread))
  | inr other ↦ let before = h (ground (arith, other, unread)) in ground (arith, before, other)
]

other_category :
    (k j : NotificationType) (on : Bool) (c : Categories)
    → same_type j k ≡ false
    → is_on j (set_category k on c) ≡ is_on j c
other_category k j on c other = ground (arith, other)

still_on :
    (k j : NotificationType) (c : Categories)
    → is_on j c ≡ true
    → is_on j (set_category k true c) ≡ true
still_on k j c on = ground (arith, on)

seen_of-Shown :
    (k : NotificationType) (on : Bool) (c : Categories) (x : AppNotification)
    → Shown on c x
    → Shown on (set_category k false c) (seen_of k x)
seen_of-Shown k on c x h unread = elim (Bool-cases (same_type x.kind k)) [
  | inl same ↦ absurd (ground (arith, same, unread))
  | inr other ↦
      let before = h (ground (arith, other, unread)) in
      ground (arith, before, other, other_category k x.kind false c other)
]

switch-IsQuiet :
    (k : NotificationType) (on : Bool) (s : NotificationsState)
    → IsQuiet s
    → IsQuiet (set_category_enabled k on s)
unfolding set_category_enabled
switch-IsQuiet k true s h = record {
  few = h.few;
  shown =
      All-map s.items h.shown (λ x shown unread.
        ((shown unread).0, still_on k x.kind s.category_enabled (shown unread).1));
}
switch-IsQuiet k false s h =
    mapped-IsQuiet (seen_of k) s.enabled (set_category k false s.category_enabled) s
      (seen_of-Shown k s.enabled s.category_enabled) h

enable-IsQuiet : (on : Bool) (s : NotificationsState) → IsQuiet s → IsQuiet (set_enabled on s)
unfolding set_enabled
enable-IsQuiet true s h = record {
  few = h.few;
  shown = All-map s.items h.shown (λ x shown unread. (refl, (shown unread).1));
}
enable-IsQuiet false s h =
    mapped-IsQuiet seen false s.category_enabled s (λ x _. seen-Shown false s.category_enabled x) h

add-IsQuiet :
    (new_id : ℕ) (now : Time) (kind : NotificationType) (title message : Text)
    (s : NotificationsState)
    → IsQuiet s
    → IsQuiet (add_notification new_id now kind title message s)
unfolding add_notification
add-IsQuiet new_id now kind title message s h =
    elim (Bool-cases (not s.enabled || not (is_on kind s.category_enabled))) [
      | inl off ↦ rw off h
      | inr on ↦
          let item : AppNotification = record {
            id = new_id;
            kind = kind;
            title = title;
            message = message;
            created_at = now;
            read = false;
          } in
          rw on (record {
            few = omega (arith, length-take 50 (item ∷ s.items));
            shown =
                All-take (Shown s.enabled s.category_enabled) 50 (item ∷ s.items)
                  ((λ _. (ground (arith, on), ground (arith, on))), h.shown);
          })
    ]

perform-IsQuiet :
    (a : NotificationAction) (s : NotificationsState) → IsQuiet s → IsQuiet (perform a s)
unfolding perform
perform-IsQuiet (adds n t k i m) s h = add-IsQuiet n t k i m s h
perform-IsQuiet (enables on) s h = enable-IsQuiet on s h
perform-IsQuiet (enables_category k on) s h = switch-IsQuiet k on s h
perform-IsQuiet reads_all s h =
    unfold mark_all_as_read in
    mapped-IsQuiet seen s.enabled s.category_enabled s
      (λ x _. seen-Shown s.enabled s.category_enabled x) h
perform-IsQuiet clears s h = unfold clear_all in record { few = omega arith; shown = tt }
perform-IsQuiet (reads id) s h =
    unfold mark_item_as_read in
    mapped-IsQuiet (seen_at id) s.enabled s.category_enabled s
      (seen_at-Shown id s.enabled s.category_enabled) h

-- After any actions on the store there are at most fifty notifications, and none is unread that is
-- switched off, as a whole or by its category.
pub perform_all-IsQuiet : (actions : List NotificationAction) → IsQuiet (perform_all actions)
unfolding perform_all
perform_all-IsQuiet [] = record { few = omega arith; shown = tt }
perform_all-IsQuiet (a ∷ actions) =
    perform-IsQuiet a (perform_all actions) (perform_all-IsQuiet actions)
