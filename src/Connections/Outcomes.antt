-- ===== src/Connections/Outcomes.antt =====
-- What answering a request and removing a contact bring about.
use corcy.Prelude.{◌<◌, ◌≡◌, inl, inr, refl, true, false, Option, some, none, arith, Option-cases}
use corcy.Store.{
  Cuid, Time, World, Connection, ConnectionRequest, RequestStatus, accepted, rejected, pending, ok,
  err, processed,
}
use corcy.Store.Table.{count, find_first, delete_many}
use corcy.Store.Table.Laws.{
  find_first-holds, find_first-update_self, count-find_first, count_split, find_first-none,
  count-delete_self, All-find_first,
}
use corcy.Plans.Guard.{is_party}
use corcy.Connections.{pair_of, joins, are_connected, upsert_connection}
use corcy.Connections.Pairs.{are_connected-eq-count, are_connected-upsert, pair_of_comm}
use corcy.Connections.Contacts.{has_connection_id, remove_connection, between}
use corcy.Connections.Consistency.Steps.{
  checked, checked-frame, answered, removed, connect_request_world, requests-upsert,
}
use corcy.Connections.Consistency.{Consistent, InOrder}
use corcy.Connections.Requests.{
  has_request_id, is_request, accept_request, reject_request, connect_request, set_status,
}

-- The status of the request with an id.
abbrev pub status_of : Cuid → World → Option RequestStatus
status_of request_id w = elim (find_first (has_request_id request_id) w.requests) [
  | none ↦ none
  | some r ↦ some r.status
]

module _ (new_id : Cuid) (now : Time) (user_id request_id : Cuid) (w : World) where
  -- An accepted request was pending and for the user, and its connection was made behind the checks.
  accept_request-success :
      (conn from : Cuid) (r : ConnectionRequest)
      → find_first (has_request_id request_id) w.requests ≡ some r
      → (accept_request new_id now user_id request_id w).0 ≡ ok (conn, from)
      → (r.to_user_id ≡ user_id)
        × (r.from_user_id ≡ from)
        × (r.status ≡ pending)
        × (request_id ≡ r.id)
        × ((accept_request new_id now user_id request_id w).1
            ≡ (connect_request new_id now r (checked now r w)).1)
  unfolding accept_request
  accept_request-success conn from r found e =
      ground (arith, find_first-holds (has_request_id request_id) w.requests r found)

  status_answered :
      (r : ConnectionRequest) (v : World)
      → find_first (has_request_id r.id) v.requests ≡ some r
      → status_of r.id (answered accepted r.id v) ≡ some accepted
  status_answered r v found = ground (
    arith,
    find_first-update_self (has_request_id r.id) (set_status accepted) v.requests (λ x. refl),
  )

  -- An accepted request was pending; it is accepted afterwards, and its two users are connected, in
  -- either order.
  pub accept_request-connects :
      (conn from : Cuid)
      → (accept_request new_id now user_id request_id w).0 ≡ ok (conn, from)
      → (status_of request_id w ≡ some pending)
        × (status_of request_id (accept_request new_id now user_id request_id w).1 ≡ some accepted)
        × (are_connected from user_id (accept_request new_id now user_id request_id w).1 ≡ true)
        × (are_connected user_id from (accept_request new_id now user_id request_id w).1 ≡ true)
  accept_request-connects conn from e =
      elim (Option-cases (find_first (has_request_id request_id) w.requests)) [
        | inl missing ↦ absurd (unfold accept_request in ground (arith, missing, e))
        | inr (r, found) ↦
            let (to, by, was, same_id, done) = accept_request-success conn from r found e in
            let v = upsert_connection new_id now r.from_user_id r.to_user_id (checked now r w) in
            let joined : are_connected r.from_user_id r.to_user_id v ≡ true =
              are_connected-upsert new_id now r.from_user_id r.to_user_id (checked now r w) in
            let there : find_first (has_request_id r.id) v.requests ≡ some r =
              rw (requests-upsert new_id now r (checked now r w), checked-frame now r w)
                (rw same_id at found) in
            rw (done, connect_request_world new_id now r (checked now r w), ← to, ← by)
              (
                ground (arith, found, was),
                rw same_id (status_answered r v there),
                joined,
                rw (pair_of_comm r.to_user_id r.from_user_id) joined,
              )
      ]

module _ (new_id : Cuid) (now : Time) (user_id request_id : Cuid) (w : World) where
  -- A request that its recipient rejected can be neither accepted nor rejected by the recipient.
  pub reject_request_once :
      (reject_request user_id request_id w).0 ≡ ok tt
      → ((accept_request new_id now user_id request_id (reject_request user_id request_id w).1).0
          ≡ err processed)
        × ((reject_request user_id request_id (reject_request user_id request_id w).1).0
            ≡ err processed)
  unfolding accept_request reject_request
  reject_request_once e = ground (
    arith,
    e,
    find_first-update_self (has_request_id request_id) (set_status rejected) w.requests (λ x. refl),
  )

module _ (user_id connection_id : Cuid) (w : World) (h : Consistent w) (c : Connection)
    (found : find_first (has_connection_id connection_id) w.connections ≡ some c) where
  abbrev gone : World
  gone = (remove_connection user_id connection_id w).1

  remove_connection-success :
      (remove_connection user_id connection_id w).0 ≡ ok tt
      → (is_party user_id c ≡ true) × (connection_id ≡ c.id) × (gone ≡ removed c w)
  unfolding remove_connection
  remove_connection-success e =
      ground
        (arith, found, find_first-holds (has_connection_id connection_id) w.connections c found)

  no_connection :
      connection_id ≡ c.id
      → count
          (joins (pair_of c.user_id_a c.user_id_b))
          (delete_many (has_connection_id c.id) w.connections)
        ≡ 0
  no_connection same_id =
      let order : c.user_id_a < c.user_id_b =
        All-find_first InOrder (has_connection_id connection_id) w.connections h.in_order found in
      let p = joins (pair_of c.user_id_a c.user_id_b) in
      let own : p c ≡ true = ground (arith, order) in
      omega (
        arith,
        h.pairs (pair_of c.user_id_a c.user_id_b).0 (pair_of c.user_id_a c.user_id_b).1,
        count_split p (has_connection_id c.id) w.connections,
        count-find_first p (has_connection_id c.id) w.connections c (rw same_id at found) own,
      )

  no_request :
      (a b : Cuid)
      → ((r : ConnectionRequest)
          → is_request a b r ≡ true
          → between c.user_id_a c.user_id_b r ≡ true)
      → find_first (is_request a b) (delete_many (between c.user_id_a c.user_id_b) w.requests)
        ≡ none
  no_request a b inside =
      find_first-none (is_request a b) _
        (count-delete_self (is_request a b) (between c.user_id_a c.user_id_b) w.requests inside)

  -- In a consistent state, a connection that is removed was one of the user; afterwards its users
  -- are not connected, and no request is left between them.
  pub remove_connection-disconnects :
      (remove_connection user_id connection_id w).0 ≡ ok tt
      → (is_party user_id c ≡ true)
        × (are_connected c.user_id_a c.user_id_b gone ≡ false)
        × (find_first (is_request c.user_id_a c.user_id_b) gone.requests ≡ none)
        × (find_first (is_request c.user_id_b c.user_id_a) gone.requests ≡ none)
  remove_connection-disconnects e =
      let (party, same_id, done) = remove_connection-success e in
      rw done (
        party,
        rw (are_connected-eq-count c.user_id_a c.user_id_b (removed c w), no_connection same_id),
        no_request c.user_id_a c.user_id_b (λ r k. ground (arith, k)),
        no_request c.user_id_b c.user_id_a (λ r k. ground (arith, k)),
      )
