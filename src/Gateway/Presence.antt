-- ===== src/Gateway/Presence.antt =====
-- A user is online exactly while one of the user's sockets is connected.
use corcy.Prelude.{
  ℕ, ◌≡◌, ◌≢◌, ◌↔◌, inl, inr, refl, ap, Bool, true, false, not, none, some, List, [], ◌∷◌, ◌||◌,
  ◌&&◌, ◌==◌, arith, Bool-cases, Option-cases,
}
use corcy.Store.{Cuid}
use corcy.Gateway.{
  Sockets, is_nil, has, add, delete, sockets_of, add_socket, remove_socket, is_online, GatewayEvent,
  connects, disconnects, handle, run,
}

-- The socket is connected for the user: its latest event was a connection.
unfoldable pub is_live : Cuid → ℕ → List GatewayEvent → Bool
is_live user s [] = false
is_live user s (connects u t ∷ es) =
    let before = is_live user s es in (u == user && t == s) || before
is_live user s (disconnects u t ∷ es) =
    let before = is_live user s es in not (u == user && t == s) && before

-- The socket is in the user's set.
holds : Cuid → ℕ → Sockets → Bool
holds user s m = elim (sockets_of user m) [ none ↦ false | some ts ↦ has s ts ]

has-delete : (s t : ℕ) (ts : List ℕ) → has t (delete s ts) ≡ (not (s == t) && has t ts)
unfolding has delete
has-delete s t [] = ground arith
has-delete s t (x ∷ xs) = ground (arith, has-delete s t xs)

has-add : (s t : ℕ) (ts : List ℕ) → has t (add s ts) ≡ (s == t || has t ts)
unfolding has add
has-add s t ts = ground (arith, λ (e : s ≡ t). ap (λ (x : ℕ). has x ts) e)

holds-add_socket :
    (u t : ℕ) (user s : ℕ) (m : Sockets)
    → holds user s (add_socket u t m) ≡ ((u == user && t == s) || holds user s m)
unfolding holds sockets_of add_socket
holds-add_socket u t user s [] = unfold has in ground arith
holds-add_socket u t user s ((v, ts) ∷ m) =
    ground (arith, has-add t s ts, holds-add_socket u t user s m)

-- One entry for a user, and no empty set.
IsMap : Sockets → Type 0
IsMap [] = Unit
IsMap ((u, ts) ∷ m) = (sockets_of u m ≡ none) × (is_nil ts ≡ false) × IsMap m

sockets_of-add_ne :
    (u t user : ℕ) (m : Sockets) → u ≢ user → sockets_of user (add_socket u t m) ≡ sockets_of user m
unfolding sockets_of add_socket
sockets_of-add_ne u t user [] d = ground arith
sockets_of-add_ne u t user ((v, ts) ∷ m) d = ground (arith, sockets_of-add_ne u t user m d)

sockets_of-remove_ne :
    (u t user : ℕ) (m : Sockets)
    → u ≢ user
    → sockets_of user (remove_socket u t m) ≡ sockets_of user m
unfolding sockets_of remove_socket
sockets_of-remove_ne u t user [] d = ground arith
sockets_of-remove_ne u t user ((v, ts) ∷ m) d = ground (arith, sockets_of-remove_ne u t user m d)

add-not_nil : (s : ℕ) (ts : List ℕ) → is_nil ts ≡ false → is_nil (add s ts) ≡ false
unfolding add
add-not_nil s ts h = ground arith

add_socket-IsMap : (u t : ℕ) (m : Sockets) → IsMap m → IsMap (add_socket u t m)
unfolding IsMap add_socket
add_socket-IsMap u t [] h = unfold sockets_of in (refl, refl, tt)
add_socket-IsMap u t ((v, ts) ∷ m) h = elim (Bool-cases (v == u)) [
  | inl e ↦ rw e (h.0, add-not_nil t ts h.1, h.2)
  | inr e ↦
      rw e (ground (arith, h.0, e, sockets_of-add_ne u t v m), h.1, add_socket-IsMap u t m h.2)
]

remove_socket-IsMap : (u t : ℕ) (m : Sockets) → IsMap m → IsMap (remove_socket u t m)
unfolding IsMap remove_socket
remove_socket-IsMap u t [] h = tt
remove_socket-IsMap u t ((v, ts) ∷ m) h = elim (Bool-cases (v == u)) [
  | inl e ↦ elim (Bool-cases (is_nil (delete t ts))) [
    | inl gone ↦ rw (e, gone) h.2
    | inr left ↦ rw (e, left) (h.0, left, h.2)
  ]
  | inr e ↦
      rw e
        (ground (arith, h.0, e, sockets_of-remove_ne u t v m), h.1, remove_socket-IsMap u t m h.2)
]

has-nil : (s : ℕ) (ts : List ℕ) → is_nil ts ≡ true → has s ts ≡ false
unfolding has
has-nil s [] h = refl
has-nil s (x ∷ xs) h = absurd (cc h)

holds-remove_socket :
    (u t user s : ℕ) (m : Sockets)
    → IsMap m
    → holds user s (remove_socket u t m) ≡ (not (u == user && t == s) && holds user s m)
unfolding holds sockets_of remove_socket IsMap
holds-remove_socket u t user s [] h = ground arith
holds-remove_socket u t user s ((v, ts) ∷ m) h = ground (
  arith,
  h.0,
  λ (e : v ≡ user). ap (λ (x : ℕ). sockets_of x m) e,
  has-delete t s ts,
  has-nil s (delete t ts),
  holds-remove_socket u t user s m h.2,
)

run-IsMap : (es : List GatewayEvent) → IsMap (run es)
unfolding run handle
run-IsMap [] = unfold IsMap in tt
run-IsMap (connects u t ∷ es) = add_socket-IsMap u t (run es) (run-IsMap es)
run-IsMap (disconnects u t ∷ es) = remove_socket-IsMap u t (run es) (run-IsMap es)

holds-run : (user s : ℕ) (es : List GatewayEvent) → holds user s (run es) ≡ is_live user s es
unfolding run handle is_live
holds-run user s [] = unfold holds sockets_of in refl
holds-run user s (connects u t ∷ es) =
    rw (holds-add_socket u t user s (run es), holds-run user s es)
holds-run user s (disconnects u t ∷ es) =
    rw (holds-remove_socket u t user s (run es) (run-IsMap es), holds-run user s es)

sockets_of-not_nil :
    (user : ℕ) (m : Sockets) (ts : List ℕ)
    → IsMap m
    → sockets_of user m ≡ some ts
    → is_nil ts ≡ false
unfolding IsMap sockets_of
sockets_of-not_nil user [] ts h e = absurd (cc e)
sockets_of-not_nil user ((v, us) ∷ m) ts h e =
    ground (arith, h.1, e, sockets_of-not_nil user m ts h.2)

online-holds :
    (user : ℕ) (m : Sockets) → is_online user m ≡ true → (s : ℕ) × (holds user s m ≡ true)
unfolding is_online holds
online-holds user m e = elim (Option-cases (sockets_of user m)) [
  | inl missing ↦ absurd (ground (arith, missing, e))
  | inr ([], found) ↦ absurd (ground (arith, found, e))
  | inr (t ∷ ts, found) ↦ (t, unfold has in ground (arith, found))
]

holds-online : (user s : ℕ) (m : Sockets) → holds user s m ≡ true → is_online user m ≡ true
unfolding is_online holds
holds-online user s m e = elim (Option-cases (sockets_of user m)) [
  | inl missing ↦ absurd (ground (arith, missing, e))
  | inr (ts, found) ↦ ground (arith, found, e, has-nil s ts)
]

-- After any connections and disconnections a user is online exactly if one of the user's sockets
-- is connected.
pub is_online-run_iff :
    (user : Cuid) (es : List GatewayEvent)
    → (is_online user (run es) ≡ true) ↔ ((s : ℕ) × (is_live user s es ≡ true))
is_online-run_iff user es = (
  λ on. let (s, there) = online-holds user (run es) on in (s, rw (← holds-run user s es) there),
  λ (s, live). holds-online user s (run es) (rw (holds-run user s es) live),
)
