-- ===== src/Client/Notifications.antt =====
-- frontend/store/notifications.ts: the list of notifications and what the user switched off. A new
-- notification's id and time are arguments; its texts are kept as they are.
pub mod Quiet
use corcy.Prelude.{
  ℕ, Bool, true, false, not, ◌||◌, ◌&&◌, ◌==◌, List, [], ◌∷◌, Text, map, take, if◌then◌else◌,
}
use corcy.Store.{Time}

pub data NotificationType : Type 0 where
  invite room security system : NotificationType

pub record AppNotification : Type 0 where
  pub id : ℕ
  pub kind : NotificationType
  pub title : Text
  pub message : Text
  pub created_at : Time
  pub read : Bool

pub record Categories : Type 0 where
  pub invite : Bool
  pub room : Bool
  pub security : Bool
  pub system : Bool

-- `categoryEnabled[type]`
abbrev pub is_on : NotificationType → Categories → Bool
is_on invite c = c.invite
is_on room c = c.room
is_on security c = c.security
is_on system c = c.system

abbrev pub set_category : NotificationType → Bool → Categories → Categories
set_category invite on c = record c { invite = on }
set_category room on c = record c { room = on }
set_category security on c = record c { security = on }
set_category system on c = record c { system = on }

abbrev pub same_type : NotificationType → NotificationType → Bool
same_type invite invite = true
same_type room room = true
same_type security security = true
same_type system system = true
same_type _ _ = false

pub record NotificationsState : Type 0 where
  pub items : List AppNotification
  pub enabled : Bool
  pub category_enabled : Categories

abbrev pub initial : NotificationsState
initial = record {
  items = [];
  enabled = true;
  category_enabled = record { invite = true; room = true; security = true; system = true };
}

abbrev pub seen : AppNotification → AppNotification
seen item = if item.read then item else record item { read = true }

unfoldable pub add_notification :
    ℕ → Time → NotificationType → Text → Text → NotificationsState → NotificationsState
add_notification new_id now kind title message state =
    if not state.enabled || not (is_on kind state.category_enabled) then state else record state {
      items = take 50 (
          record {
            id = new_id;
            kind = kind;
            title = title;
            message = message;
            created_at = now;
            read = false;
          }
          ∷ state.items);
    }

unfoldable pub set_enabled : Bool → NotificationsState → NotificationsState
set_enabled enabled state = record state {
  enabled = enabled;
  items = if enabled then state.items else map seen state.items;
}

abbrev pub seen_of : NotificationType → AppNotification → AppNotification
seen_of kind item =
    if same_type item.kind kind && not item.read then record item { read = true } else item

unfoldable pub set_category_enabled :
    NotificationType → Bool → NotificationsState → NotificationsState
set_category_enabled kind enabled state = record state {
  category_enabled = set_category kind enabled state.category_enabled;
  items = if enabled then state.items else map (seen_of kind) state.items;
}

unfoldable pub mark_all_as_read : NotificationsState → NotificationsState
mark_all_as_read state = record state { items = map seen state.items }

abbrev pub seen_at : ℕ → AppNotification → AppNotification
seen_at id item = if item.id == id then record item { read = true } else item

unfoldable pub mark_item_as_read : ℕ → NotificationsState → NotificationsState
mark_item_as_read id state = record state { items = map (seen_at id) state.items }

unfoldable pub clear_all : NotificationsState → NotificationsState
clear_all state = record state { items = [] }

-- One action on the store.
pub data NotificationAction : Type 0 where
  adds : ℕ → Time → NotificationType → Text → Text → NotificationAction
  enables : Bool → NotificationAction
  enables_category : NotificationType → Bool → NotificationAction
  reads_all clears : NotificationAction
  reads : ℕ → NotificationAction

unfoldable pub perform : NotificationAction → NotificationsState → NotificationsState
unfolding add_notification set_enabled set_category_enabled mark_all_as_read mark_item_as_read
    clear_all
perform (adds new_id now kind title message) s = add_notification new_id now kind title message s
perform (enables on) s = set_enabled on s
perform (enables_category kind on) s = set_category_enabled kind on s
perform reads_all s = mark_all_as_read s
perform clears s = clear_all s
perform (reads id) s = mark_item_as_read id s

-- The latest action is the head.
unfoldable pub perform_all : List NotificationAction → NotificationsState
perform_all [] = initial
perform_all (a ∷ actions) = perform a (perform_all actions)
