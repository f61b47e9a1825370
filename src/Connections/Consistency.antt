-- ===== src/Connections/Consistency.antt =====
-- What the contact operations keep: ids and pairs of connections occur once and in order, a request
-- occurs once for its two users, who differ, and those of an accepted request are connected.
pub mod Steps
use corcy.Prelude.{
  ℕ, zero, ◌+◌, ◌≤◌, ◌<◌, ◌≡◌, ◌≢◌, refl, ap, Bool, true, false, List, [], ◌∷◌, ◌&&◌, ltb, ◌==◌,
  arith, All, All-map, All-and, some, Bool-cases, inl, inr, if◌then◌else◌,
}
use corcy.Store.{
  Cuid, Time, Connection, ConnectionRequest, RequestStatus, pending, accepted, rejected, World,
}
use corcy.Store.Table.{count, exists, find_first, update, delete_many}
use corcy.Store.Table.Laws.{
  exists-eq-count, is_some-find_first, count-update, count-delete_many-le, count_split,
  count_and_zero, unique_row, All-delete_many, All-update,
}
use corcy.Connections.{pair_of, joins, upsert_connection}
use corcy.Connections.Pairs.{are_connected-upsert, are_connected-eq-count}
use corcy.Connections.Contacts.{has_connection_id, between}
use corcy.Connections.Requests.{is_request, has_request_id, set_status, upsert_request}

abbrev pub Joined : Cuid → Cuid → List Connection → Type 0
Joined a b cs = 0 < count (joins (pair_of a b)) cs

abbrev pub InOrder : Connection → Type 0
InOrder c = c.user_id_a < c.user_id_b

abbrev pub Differ : ConnectionRequest → Type 0
Differ r = r.from_user_id ≢ r.to_user_id

abbrev pub AcceptedJoined : List Connection → ConnectionRequest → Type 0
AcceptedJoined cs r = r.status ≡ accepted → Joined r.from_user_id r.to_user_id cs

pub record IsConsistent (cs : List Connection) (rs : List ConnectionRequest) : Type 0 where
  pub ids : (i : Cuid) → count (has_connection_id i) cs ≤ 1
  pub pairs : (a b : Cuid) → count (joins (a, b)) cs ≤ 1
  pub in_order : All InOrder cs
  pub request_ids : (i : Cuid) → count (has_request_id i) rs ≤ 1
  pub requests : (a b : Cuid) → count (is_request a b) rs ≤ 1
  pub differ : All Differ rs
  pub joined : All (AcceptedJoined cs) rs

module _ {cs : List Connection} {rs : List ConnectionRequest} (h : IsConsistent cs rs) where
  -- Deleting a connection with the requests between its users.
  pub remove-IsConsistent :
      (c : Connection)
      → find_first (has_connection_id c.id) cs ≡ some c
      → IsConsistent
          (delete_many (has_connection_id c.id) cs)
          (delete_many (between c.user_id_a c.user_id_b) rs)
  remove-IsConsistent c found = record {
    ids = λ i.
        omega
          (arith, h.ids i, count-delete_many-le (has_connection_id i) (has_connection_id c.id) cs);
    pairs = λ a b.
        omega (arith, h.pairs a b, count-delete_many-le (joins (a, b)) (has_connection_id c.id) cs);
    in_order =
        All-map _ (All-delete_many InOrder (has_connection_id c.id) cs h.in_order) (λ x k. k.0);
    request_ids = λ i. omega (
      arith,
      h.request_ids i,
      count-delete_many-le (has_request_id i) (between c.user_id_a c.user_id_b) rs,
    );
    requests = λ a b. omega (
      arith,
      h.requests a b,
      count-delete_many-le (is_request a b) (between c.user_id_a c.user_id_b) rs,
    );
    differ =
        All-map _ (All-delete_many Differ (between c.user_id_a c.user_id_b) rs h.differ)
          (λ x k. k.0);
    joined =
        All-map _
          (All-delete_many (AcceptedJoined cs) (between c.user_id_a c.user_id_b) rs h.joined) still;
  }
    where
      only : All (λ x. has_connection_id c.id x ≡ true → x ≡ c) cs
      only = unique_row (has_connection_id c.id) cs c (h.ids c.id) found

      still :
          (r : ConnectionRequest)
          → AcceptedJoined cs r × (between c.user_id_a c.user_id_b r ≡ false)
          → AcceptedJoined (delete_many (has_connection_id c.id) cs) r
      still r (joined, other) e =
          let p = joins (pair_of r.from_user_id r.to_user_id) in
          let others : p c ≡ false = ground (arith, other) in
          omega (
            arith,
            joined e,
            count_split p (has_connection_id c.id) cs,
            count_and_zero p (has_connection_id c.id) c cs only others,
          )

  -- A status that is not `accepted` asks for nothing.
  pub set_status-IsConsistent :
      (q : ConnectionRequest → Bool) (s : RequestStatus)
      → s ≢ accepted
      → IsConsistent cs (update q (set_status s) rs)
  set_status-IsConsistent q s other = record {
    ids = h.ids;
    pairs = h.pairs;
    in_order = h.in_order;
    request_ids = λ i.
        omega
          (arith, h.request_ids i, count-update (has_request_id i) q (set_status s) rs (λ x. refl));
    requests = λ a b.
        omega
          (arith, h.requests a b, count-update (is_request a b) q (set_status s) rs (λ x. refl));
    differ = All-update {Q = Differ} q (set_status s) rs h.differ (λ x k _. k) (λ x k _. k);
    joined =
        All-update {Q = AcceptedJoined cs} q (set_status s) rs h.joined
          (λ x k _ e. absurd (other e)) (λ x k _. k);
  }

  -- A request may be marked as accepted once its users are connected.
  pub accept-IsConsistent :
      (r : ConnectionRequest)
      → find_first (has_request_id r.id) rs ≡ some r
      → Joined r.from_user_id r.to_user_id cs
      → IsConsistent cs (update (has_request_id r.id) (set_status accepted) rs)
  accept-IsConsistent r found both = record {
    ids = h.ids;
    pairs = h.pairs;
    in_order = h.in_order;
    request_ids = λ i. omega (
      arith,
      h.request_ids i,
      count-update (has_request_id i) (has_request_id r.id) (set_status accepted) rs (λ x. refl),
    );
    requests = λ a b. omega (
      arith,
      h.requests a b,
      count-update (is_request a b) (has_request_id r.id) (set_status accepted) rs (λ x. refl),
    );
    differ =
        All-update {Q = Differ} (has_request_id r.id) (set_status accepted) rs h.differ (λ x k _. k)
          (λ x k _. k);
    joined =
        All-update {Q = AcceptedJoined cs} (has_request_id r.id) (set_status accepted) rs
          (All-and (AcceptedJoined cs) (λ x. has_request_id r.id x ≡ true → x ≡ r) rs h.joined
            (unique_row (has_request_id r.id) rs r (h.request_ids r.id) found))
          (λ x k same _. rw (k.1 same) both) (λ x k _. k.0);
  }

abbrev pub Consistent : World → Type 0
Consistent w = IsConsistent w.connections w.requests

module _ (new_id : Cuid) (now : Time) (a b : Cuid) (w : World) (h : Consistent w)
    (differ : a ≢ b) where
  pub connect-Consistent :
      count (has_connection_id new_id) w.connections ≡ 0
      → Consistent (upsert_connection new_id now a b w)
  unfolding count
  connect-Consistent fresh = elim (Bool-cases (exists (joins (pair_of a b)) w.connections)) [
    | inl old ↦ rw old h
    | inr new ↦ rw new (record {
      ids = λ i. ground (arith, h.ids i, λ (e : new_id ≡ i). rw e at fresh);
      pairs = λ x y.
          ground (arith, h.pairs x y, new, exists-eq-count (joins (pair_of a b)) w.connections);
      in_order = (ground (arith, differ), h.in_order);
      request_ids = h.request_ids;
      requests = h.requests;
      differ = h.differ;
      joined = All-map w.requests h.joined (λ r k e. ground (arith, k e));
    })
  ]

  pub request-Consistent :
      count (has_request_id new_id) w.requests ≡ 0 → Consistent (upsert_request new_id now a b w)
  unfolding count
  request-Consistent fresh = elim (Bool-cases (exists (is_request a b) w.requests)) [
    | inl old ↦ rw old (set_status-IsConsistent h (is_request a b) pending (λ e. cc e))
    | inr new ↦ rw new (record {
      ids = h.ids;
      pairs = h.pairs;
      in_order = h.in_order;
      request_ids = λ i. ground (arith, h.request_ids i, λ (e : new_id ≡ i). rw e at fresh);
      requests =
          λ x y. ground (arith, h.requests x y, new, exists-eq-count (is_request a b) w.requests);
      differ = (differ, h.differ);
      joined = (λ e. absurd (cc e), h.joined);
    })
  ]
