-- ===== src/Connections/Requests.antt =====
-- Contact requests: `requestByUserId`, `listIncomingRequests`, `acceptRequest`, `rejectRequest`.
use corcy.Prelude.{
  Bool, true, false, not, Option, none, some, List, ◌∷◌, ◌&&◌, ◌==◌, is_some, if◌then◌else◌,
}
use corcy.Store.{
  Cuid, Time, ConnectionRequest, RequestStatus, pending, accepted, rejected, World, not_found,
  forbidden, self_target, already_connected, already_sent, reverse_pending, processed, Exec, pure,
  read, write, throw_if, some_or, continue, ◌>>=◌, ◌>>◌,
}
use corcy.Store.Table.{find_first, find_many, update, exists}
use corcy.Store.Order.{sort_desc}
use corcy.Plans.Guard.{has_id, check_contacts_limit}
use corcy.Connections.{find_connection, are_connected, upsert_connection}

abbrev pub is_pending : RequestStatus → Bool
is_pending pending = true
is_pending _ = false

abbrev pub is_request : Cuid → Cuid → ConnectionRequest → Bool
is_request from to r = r.from_user_id == from && r.to_user_id == to

abbrev pub has_request_id : Cuid → ConnectionRequest → Bool
has_request_id request_id r = r.id == request_id

-- `existingRequest && existingRequest.status === 'pending'`
abbrev pub found_pending : Option ConnectionRequest → Bool
found_pending none = false
found_pending (some r) = is_pending r.status

abbrev pub set_status : RequestStatus → ConnectionRequest → ConnectionRequest
set_status s r = record r { status = s }

-- `connectionRequest.upsert` on (from, to).
abbrev pub upsert_request : Cuid → Time → Cuid → Cuid → World → World
upsert_request new_id now from to w =
    if exists (is_request from to) w.requests
    then record w { requests = update (is_request from to) (set_status pending) w.requests }
    else record w {
      requests =
          record {
            id = new_id;
            from_user_id = from;
            to_user_id = to;
            status = pending;
            created_at = now;
          }
          ∷ w.requests;
    }

-- The checks and the write behind the plan's limit.
unfoldable pub send_request : Cuid → Time → Cuid → Cuid → Exec (Unit {0})
send_request new_id now from to = do
  throw_if (to == 0) not_found
  throw_if (to == from) self_target
  to_user ← read (λ w. find_first (has_id to) w.users)
  throw_if (not (is_some to_user)) not_found
  connected ← read (are_connected from to)
  throw_if connected already_connected
  existing ← read (λ w. find_first (is_request from to) w.requests)
  throw_if (found_pending existing) already_sent
  reverse ← read (λ w. find_first (is_request to from) w.requests)
  throw_if (found_pending reverse) reverse_pending
  write (upsert_request new_id now from to)

unfoldable pub request_by_user_id : Cuid → Time → Cuid → Cuid → Exec (Unit {0})
request_by_user_id new_id now from to = do
  check_contacts_limit now from
  send_request new_id now from to

unfoldable pub list_incoming_requests : Cuid → Exec (List ConnectionRequest)
list_incoming_requests user_id = read (λ w.
    sort_desc (λ (r : ConnectionRequest). r.created_at)
      (find_many (λ (r : ConnectionRequest). r.to_user_id == user_id && is_pending r.status)
        w.requests))

-- `Promise.all([m, n])`: both run, and the first rejection is thrown.
abbrev pub both : Exec (Unit {0}) → Exec (Unit {0}) → Exec (Unit {0})
both m n w = continue (m w).0 (λ _ w'. ((n (m w).1).0, w')) (n (m w).1).1

-- The transaction of `acceptRequest`, and the read behind it.
unfoldable pub connect_request : Cuid → Time → ConnectionRequest → Exec Cuid
connect_request new_id now r = do
  write (upsert_connection new_id now r.from_user_id r.to_user_id)
  write (λ w. record w { requests = update (has_request_id r.id) (set_status accepted) w.requests })
  found ← read (find_connection r.from_user_id r.to_user_id)
  conn ← some_or found not_found
  pure conn.id

-- The request that a user may answer, or the exception.
abbrev pub open_request : Cuid → Cuid → Exec ConnectionRequest
open_request user_id request_id = do
  found ← read (λ w. find_first (has_request_id request_id) w.requests)
  r ← some_or found not_found
  throw_if (not (r.to_user_id == user_id)) forbidden
  throw_if (not (is_pending r.status)) processed
  pure r

-- Returns the id of the connection and that of the user who had asked.
unfoldable pub accept_request : Cuid → Time → Cuid → Cuid → Exec (Cuid × Cuid)
accept_request new_id now user_id request_id = do
  r ← open_request user_id request_id
  both (check_contacts_limit now r.from_user_id) (check_contacts_limit now r.to_user_id)
  conn ← connect_request new_id now r
  pure (conn, r.from_user_id)

unfoldable pub reject_request : Cuid → Cuid → Exec (Unit {0})
reject_request user_id request_id = do
  _ ← open_request user_id request_id
  write (λ w. record w {
    requests = update (has_request_id request_id) (set_status rejected) w.requests;
  })
