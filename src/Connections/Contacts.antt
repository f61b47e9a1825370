-- ===== src/Connections/Contacts.antt =====
-- `listMy` and `removeConnection`. A page's item names the contact by the user's id, for the row
-- that the query joins.
use corcy.Prelude.{
  ℕ, ◌+◌, min, Bool, not, Option, none, some, List, ◌||◌, ◌==◌, ltb, or_else, length, take, map,
  if◌then◌else◌,
}
use corcy.Store.{
  Cuid, Connection, ConnectionRequest, World, not_found, forbidden, Exec, read, write, throw_if,
  some_or, ◌>>=◌, ◌>>◌,
}
use corcy.Store.Table.{find_first, find_many, delete_many}
use corcy.Store.Order.{sort_desc, rows_after, pop, last?}
use corcy.Plans.Guard.{is_party}
use corcy.Connections.Requests.{is_request}

pub record Page (A : Type 0) : Type 0 where
  pub items : List A
  pub has_more : Bool
  pub next_cursor : Option Cuid

pub record Contact : Type 0 where
  pub id : Cuid
  pub user_id : Cuid

abbrev pub contact_of : Cuid → Connection → Contact
contact_of user_id c = record {
  id = c.id;
  user_id = if c.user_id_a == user_id then c.user_id_b else c.user_id_a;
}

abbrev pub behind : Option Cuid → List Connection → List Connection
behind none rows = rows
behind (some c) rows = rows_after (λ r. r.id) c rows

abbrev cursor_of : Option Connection → Option Cuid
cursor_of none = none
cursor_of (some r) = some r.id

-- `page_size` rows, and a cursor when the query for one row more than that found it.
unfoldable pub page_of : Cuid → ℕ → List Connection → Page Contact
page_of user_id page_size found =
    let has_more = ltb page_size (length found) in
    let rows = if has_more then pop found else found in
    record {
      items = map (contact_of user_id) rows;
      has_more = has_more;
      next_cursor = if has_more then cursor_of (last? rows) else none;
    }

abbrev pub my_connections : Cuid → World → List Connection
my_connections user_id w =
    sort_desc (λ (c : Connection). c.created_at) (find_many (is_party user_id) w.connections)

abbrev pub page_size : Option ℕ → ℕ
page_size limit = min (or_else limit 50) 100

unfoldable pub list_my : Cuid → Option Cuid → Option ℕ → Exec (Page Contact)
unfolding page_of
list_my user_id cursor limit = read (λ w.
    page_of user_id (page_size limit)
      (take (page_size limit + 1) (behind cursor (my_connections user_id w))))

abbrev pub has_connection_id : Cuid → Connection → Bool
has_connection_id connection_id c = c.id == connection_id

abbrev pub between : Cuid → Cuid → ConnectionRequest → Bool
between a b r = is_request a b r || is_request b a r

unfoldable pub remove_connection : Cuid → Cuid → Exec (Unit {0})
remove_connection user_id connection_id = do
  found ← read (λ w. find_first (has_connection_id connection_id) w.connections)
  c ← some_or found not_found
  throw_if (not (is_party user_id c)) forbidden
  write (λ w. record w {
    connections = delete_many (has_connection_id connection_id) w.connections;
    requests = delete_many (between c.user_id_a c.user_id_b) w.requests;
  })
