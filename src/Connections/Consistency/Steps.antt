-- ===== src/Connections/Consistency/Steps.antt =====
-- Each contact operation keeps the consistency of connections and requests, on every branch.
use corcy.Prelude.{◌≡◌, ◌≢◌, ◌⊎◌, inl, inr, Option-cases, some, arith}
use corcy.Store.{
  RequestStatus, Cuid, Time, World, Connection, ConnectionRequest, accepted, rejected,
}
use corcy.Store.Table.{count, find_first, update, delete_many}
use corcy.Store.Table.Laws.{find_first-holds, All-find_first}
use corcy.Connections.Pairs.{are_connected-upsert, are_connected-eq-count}
use corcy.Plans.Guard.{check_contacts_limit}
use corcy.Plans.Frame.{with_users, check_contacts_limit-frame}
use corcy.Connections.{upsert_connection}
use corcy.Connections.Contacts.{has_connection_id, remove_connection, between}
use corcy.Connections.Requests.{
  has_request_id, send_request, request_by_user_id, accept_request, reject_request, upsert_request,
  connect_request, set_status,
}
use corcy.Connections.Consistency.{
  Differ, remove-IsConsistent, set_status-IsConsistent, accept-IsConsistent, Consistent,
  connect-Consistent, request-Consistent,
}

-- The world after a deletion of a connection with the requests between its users.
abbrev pub removed : Connection → World → World
removed c w = record w {
  connections = delete_many (has_connection_id c.id) w.connections;
  requests = delete_many (between c.user_id_a c.user_id_b) w.requests;
}

-- The world after a request was given a status.
abbrev pub answered : RequestStatus → Cuid → World → World
answered s request_id w = record w {
  requests = update (has_request_id request_id) (set_status s) w.requests;
}

module _ (user_id connection_id : Cuid) (w : World) where
  pub remove_connection_found :
      (c : Connection)
      → find_first (has_connection_id connection_id) w.connections ≡ some c
      → ((remove_connection user_id connection_id w).1 ≡ w)
        ⊎ ((remove_connection user_id connection_id w).1 ≡ removed c w)
  unfolding remove_connection
  remove_connection_found c found =
      ground (arith, find_first-holds (has_connection_id connection_id) w.connections c found)

  remove_connection-cases :
      ((remove_connection user_id connection_id w).1 ≡ w)
      ⊎ ((c : Connection) × (find_first (has_connection_id connection_id) w.connections ≡ some c)
          × (connection_id ≡ c.id)
          × ((remove_connection user_id connection_id w).1 ≡ removed c w))
  remove_connection-cases =
      elim (Option-cases (find_first (has_connection_id connection_id) w.connections)) [
        | inl missing ↦ inl (unfold remove_connection in ground arith)
        | inr (c, found) ↦ elim (remove_connection_found c found) [
          | inl same ↦ inl same
          | inr done ↦ inr (
            c,
            found,
            ground
                (arith, find_first-holds (has_connection_id connection_id) w.connections c found),
            done,
          )
        ]
      ]

  pub remove_connection-Consistent :
      Consistent w → Consistent (remove_connection user_id connection_id w).1
  remove_connection-Consistent h = elim remove_connection-cases [
    | inl same ↦ rw same h
    | inr (c, found, same_id, done) ↦ rw done (remove-IsConsistent h c (rw same_id at found))
  ]

module _ (new_id : Cuid) (now : Time) (from to : Cuid) (w : World) where
  send_request-cases :
      ((send_request new_id now from to w).1 ≡ w)
      ⊎ ((from ≢ to)
          × ((send_request new_id now from to w).1 ≡ upsert_request new_id now from to w))
  unfolding send_request
  send_request-cases = ground arith

  send_request-Consistent :
      count (has_request_id new_id) w.requests ≡ 0
      → Consistent w
      → Consistent (send_request new_id now from to w).1
  send_request-Consistent fresh h = elim send_request-cases [
    | inl same ↦ rw same h
    | inr (differ, sent) ↦ rw sent (request-Consistent new_id now from to w h differ fresh)
  ]

module _ (new_id : Cuid) (now : Time) (from to : Cuid) (w : World) where
  request_by_user_id-cases :
      ((request_by_user_id new_id now from to w).1 ≡ (check_contacts_limit now from w).1)
      ⊎ ((request_by_user_id new_id now from to w).1
          ≡ (send_request new_id now from to (check_contacts_limit now from w).1).1)
  unfolding request_by_user_id
  request_by_user_id-cases = ground arith

  pub request_by_user_id-Consistent :
      count (has_request_id new_id) w.requests ≡ 0
      → Consistent w
      → Consistent (request_by_user_id new_id now from to w).1
  request_by_user_id-Consistent fresh h = elim request_by_user_id-cases [
    | inl refused ↦ rw (refused, check_contacts_limit-frame now from w) h
    | inr sent ↦
        rw (sent, check_contacts_limit-frame now from w)
          (send_request-Consistent new_id now from to
            (with_users w (check_contacts_limit now from w).1) fresh h)
  ]

module _ (user_id request_id : Cuid) (w : World) where
  reject_request-cases :
      ((reject_request user_id request_id w).1 ≡ w)
      ⊎ ((reject_request user_id request_id w).1 ≡ answered rejected request_id w)
  unfolding reject_request
  reject_request-cases = ground arith

  pub reject_request-Consistent : Consistent w → Consistent (reject_request user_id request_id w).1
  reject_request-Consistent h = elim reject_request-cases [
    | inl same ↦ rw same h
    | inr done ↦
        rw done (set_status-IsConsistent h (has_request_id request_id) rejected (λ e. cc e))
  ]

-- The world after both users' plans were checked.
abbrev pub checked : Time → ConnectionRequest → World → World
checked now r w =
    (check_contacts_limit now r.to_user_id (check_contacts_limit now r.from_user_id w).1).1

pub checked-frame :
    (now : Time) (r : ConnectionRequest) (w : World)
    → checked now r w ≡ with_users w (checked now r w)
checked-frame now r w = cc (
  check_contacts_limit-frame now r.from_user_id w,
  check_contacts_limit-frame now r.to_user_id (check_contacts_limit now r.from_user_id w).1,
)

module _ (new_id : Cuid) (now : Time) (r : ConnectionRequest) (w : World) where
  pub connect_request_world :
      (connect_request new_id now r w).1
      ≡ answered accepted r.id (upsert_connection new_id now r.from_user_id r.to_user_id w)
  unfolding connect_request
  connect_request_world = ground arith

  pub requests-upsert :
      (upsert_connection new_id now r.from_user_id r.to_user_id w).requests ≡ w.requests
  requests-upsert = ground arith

  connect_request-Consistent :
      find_first (has_request_id r.id) w.requests ≡ some r
      → count (has_connection_id new_id) w.connections ≡ 0
      → Consistent w
      → Consistent (connect_request new_id now r w).1
  connect_request-Consistent found fresh h = rw connect_request_world (
      accept-IsConsistent
        (connect-Consistent new_id now r.from_user_id r.to_user_id w h
          (All-find_first Differ _ w.requests h.differ found) fresh)
        r (rw requests-upsert found)
        (ground (
          arith,
          are_connected-upsert new_id now r.from_user_id r.to_user_id w,
          are_connected-eq-count r.from_user_id r.to_user_id
              (upsert_connection new_id now r.from_user_id r.to_user_id w),
        )))

module _ (new_id : Cuid) (now : Time) (user_id request_id : Cuid) (w : World) where
  accept_request_found :
      (r : ConnectionRequest)
      → find_first (has_request_id request_id) w.requests ≡ some r
      → ((accept_request new_id now user_id request_id w).1 ≡ w)
        ⊎ (((accept_request new_id now user_id request_id w).1 ≡ checked now r w)
            ⊎ ((accept_request new_id now user_id request_id w).1
                ≡ (connect_request new_id now r (checked now r w)).1))
  unfolding accept_request
  accept_request_found r found = ground arith

  accept_request-cases :
      ((accept_request new_id now user_id request_id w).1 ≡ w)
      ⊎ ((r : ConnectionRequest) × (find_first (has_request_id request_id) w.requests ≡ some r)
          × (request_id ≡ r.id)
          × (((accept_request new_id now user_id request_id w).1 ≡ checked now r w)
              ⊎ ((accept_request new_id now user_id request_id w).1
                  ≡ (connect_request new_id now r (checked now r w)).1)))
  accept_request-cases = elim (Option-cases (find_first (has_request_id request_id) w.requests)) [
    | inl missing ↦ inl (unfold accept_request in ground arith)
    | inr (r, found) ↦ elim (accept_request_found r found) [
      | inl same ↦ inl same
      | inr done ↦ inr (
        r,
        found,
        ground (arith, find_first-holds (has_request_id request_id) w.requests r found),
        done,
      )
    ]
  ]

  pub accept_request-Consistent :
      count (has_connection_id new_id) w.connections ≡ 0
      → Consistent w
      → Consistent (accept_request new_id now user_id request_id w).1
  accept_request-Consistent fresh h = elim accept_request-cases [
    | inl same ↦ rw same h
    | inr (r, found, same_id, inl refused) ↦ rw (refused, checked-frame now r w) h
    | inr (r, found, same_id, inr done) ↦
        rw (done, checked-frame now r w)
          (connect_request-Consistent new_id now r (with_users w (checked now r w))
            (rw same_id at found) fresh h)
  ]

-- Contact requests and connections leave the invites alone.
pub invites-request_by_user_id :
    (new_id : Cuid) (now : Time) (from to : Cuid) (w : World)
    → (request_by_user_id new_id now from to w).1.invites ≡ w.invites
unfolding request_by_user_id send_request
invites-request_by_user_id new_id now from to w =
    ground (arith, check_contacts_limit-frame now from w)

pub invites-accept_request :
    (new_id : Cuid) (now : Time) (user_id request_id : Cuid) (w : World)
    → (accept_request new_id now user_id request_id w).1.invites ≡ w.invites
unfolding connect_request
invites-accept_request new_id now user_id request_id w =
    elim (accept_request-cases new_id now user_id request_id w) [
      | inl same ↦ rw same
      | inr (r, found, same_id, inl refused) ↦ rw (refused, checked-frame now r w)
      | inr (r, found, same_id, inr done) ↦ rw (done, checked-frame now r w) (ground arith)
    ]

pub invites-reject_request :
    (user_id request_id : Cuid) (w : World)
    → (reject_request user_id request_id w).1.invites ≡ w.invites
unfolding reject_request
invites-reject_request user_id request_id w = ground arith

pub invites-remove_connection :
    (user_id connection_id : Cuid) (w : World)
    → (remove_connection user_id connection_id w).1.invites ≡ w.invites
unfolding remove_connection
invites-remove_connection user_id connection_id w = ground arith
