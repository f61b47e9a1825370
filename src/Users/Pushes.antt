-- ===== src/Users/Pushes.antt =====
-- The subscriptions that a push leaves.
use corcy.Prelude.{
  ◌≡◌, refl, ap, inl, inr, Bool, true, false, ◌&&◌, List, [], ◌∷◌, Text, text_eq, text_eq_refl,
  text_eq_sound, arith, Bool-cases, if◌then◌else◌,
}
use corcy.Store.{Cuid, PushSubscription, World}
use corcy.Store.Table.{count, exists, find_many, delete_many}
use corcy.Store.Table.Laws.{count-delete_other, count-delete_self}
use corcy.Users.{has_endpoint, pushed_to, Delivery, is_gone, drop_gone, send_push}

apart : (s t : Text) → text_eq s t ≡ false → text_eq t s ≡ false
apart s t other = elim (Bool-cases (text_eq t s)) [
  | inl same ↦
      let e : t ≡ s = text_eq_sound t s same in
      absurd (cc (other, text_eq_refl s, ap (text_eq s) e))
  | inr differ ↦ differ
]

module _ (deliver : PushSubscription → Delivery) where
  abbrev pub is_lost : Text → PushSubscription → Bool
  is_lost endpoint s = has_endpoint endpoint s && is_gone (deliver s)

  count-drop_gone :
      (endpoint : Text) (ss : List PushSubscription) (w : World)
      → count (has_endpoint endpoint) (drop_gone deliver ss w).push_subscriptions ≡ (
          if exists (is_lost endpoint) ss
          then 0
          else count (has_endpoint endpoint) w.push_subscriptions)
  unfolding drop_gone exists
  count-drop_gone endpoint [] w = refl
  count-drop_gone endpoint (x ∷ xs) w =
      let p = has_endpoint endpoint in
      let q = has_endpoint x.endpoint in
      let v = record w { push_subscriptions = delete_many q w.push_subscriptions } in
      elim (Bool-cases (text_eq x.endpoint endpoint)) [
        | inl same ↦
            let e : x.endpoint ≡ endpoint = text_eq_sound x.endpoint endpoint same in
            let none_left =
              count-delete_self p q w.push_subscriptions
                (λ y k. rw (text_eq_sound y.endpoint endpoint k, e) (text_eq_refl endpoint)) in
            ground
              (arith, same, none_left, count-drop_gone endpoint xs w, count-drop_gone endpoint xs v)
        | inr other ↦
            let kept =
              count-delete_other p q w.push_subscriptions (λ y k.
                rw (text_eq_sound y.endpoint endpoint k) (apart x.endpoint endpoint other)) in
            ground
              (arith, other, kept, count-drop_gone endpoint xs w, count-drop_gone endpoint xs v)
      ]

  -- A push leaves no subscription at an endpoint of the user's that the push service reports as
  -- gone, and all others.
  pub count-send_push :
      (user_id : Cuid) (endpoint : Text) (w : World)
      → count (has_endpoint endpoint) (send_push true deliver user_id w).1.push_subscriptions ≡ (
          if exists (is_lost endpoint) (find_many (pushed_to user_id) w.push_subscriptions)
          then 0
          else count (has_endpoint endpoint) w.push_subscriptions)
  unfolding send_push
  count-send_push user_id endpoint w =
      count-drop_gone endpoint (find_many (pushed_to user_id) w.push_subscriptions) w
