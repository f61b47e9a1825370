-- ===== src/Gateway.antt =====
-- The map of sockets of backend/src/chat/chat.gateway.ts: `handleConnection` with a verified token,
-- `handleDisconnect`, `isOnline`. A map is a list with one entry for a user.
pub mod Presence
pub mod Calls
use corcy.Prelude.{
  ℕ, Bool, true, false, not, Option, none, some, List, [], ◌∷◌, ◌||◌, ◌==◌, if◌then◌else◌,
}
use corcy.Store.{Cuid, World, Exec, write}

abbrev pub Sockets : Type 0
Sockets = List (Cuid × List ℕ)

abbrev pub is_nil : List ℕ → Bool
is_nil [] = true
is_nil (_ ∷ _) = false

unfoldable pub has : ℕ → List ℕ → Bool
has s [] = false
has s (t ∷ ts) = t == s || has s ts

-- `Set.add`, `Set.delete`
pub add : ℕ → List ℕ → List ℕ
add s ts = if has s ts then ts else s ∷ ts

pub delete : ℕ → List ℕ → List ℕ
delete s [] = []
delete s (t ∷ ts) = let rest = delete s ts in if t == s then rest else t ∷ rest

-- `userSockets.get(userId)`
pub sockets_of : Cuid → Sockets → Option (List ℕ)
sockets_of user [] = none
sockets_of user ((u, ts) ∷ m) = let rest = sockets_of user m in if u == user then some ts else rest

-- `if (!has(user)) set(user, new Set()); get(user).add(socket)`
unfoldable pub add_socket : Cuid → ℕ → Sockets → Sockets
unfolding add
add_socket user s [] = (user, s ∷ []) ∷ []
add_socket user s ((u, ts) ∷ m) =
    let rest = (u, ts) ∷ add_socket user s m in if u == user then (u, add s ts) ∷ m else rest

-- `get(user).delete(socket); if (size === 0) delete(user)`
unfoldable pub remove_socket : Cuid → ℕ → Sockets → Sockets
unfolding delete
remove_socket user s [] = []
remove_socket user s ((u, ts) ∷ m) =
    let rest = (u, ts) ∷ remove_socket user s m in
    let left = delete s ts in if u == user then (if is_nil left then m else (u, left) ∷ m) else rest

unfoldable pub is_online : Cuid → Sockets → Bool
unfolding sockets_of
is_online user m = elim (sockets_of user m) [ none ↦ false | some ts ↦ not (is_nil ts) ]

pub data GatewayEvent : Type 0 where
  connects disconnects : Cuid → ℕ → GatewayEvent

-- A connection with a valid token of the user, or the end of one.
unfoldable pub handle : GatewayEvent → Sockets → Sockets
handle (connects user s) m = add_socket user s m
handle (disconnects user s) m = remove_socket user s m

-- The latest event is the head.
unfoldable pub run : List GatewayEvent → Sockets
run [] = []
run (e ∷ es) = handle e (run es)
