-- ===== src/Connections/Pairs.antt =====
-- The pair of a connection has no order, and `connection.upsert` adds at most one row for it.
use corcy.Prelude.{◌≤◌, ◌≡◌, Bool, true, ltb, arith}
use corcy.Store.{Cuid, Time, Connection, World}
use corcy.Store.Table.{count}
use corcy.Store.Table.Laws.{exists-eq-count, is_some-find_first}
use corcy.Connections.{pair_of, joins, are_connected, upsert_connection}

pub pair_of_comm : (a b : Cuid) → pair_of a b ≡ pair_of b a
pair_of_comm a b = ground arith

-- Who is connected with whom, by the number of rows.
pub are_connected-eq-count :
    (a b : Cuid) (w : World)
    → are_connected a b w ≡ ltb 0 (count (joins (pair_of a b)) w.connections)
are_connected-eq-count a b w = is_some-find_first (joins (pair_of a b)) w.connections

module _ (new_id : Cuid) (now : Time) (a b : Cuid) (w : World) where
  abbrev after : World
  after = upsert_connection new_id now a b w

  pub are_connected-upsert : are_connected a b after ≡ true
  unfolding count
  are_connected-upsert =
      ground (
        arith,
        are_connected-eq-count a b after,
        exists-eq-count (joins (pair_of a b)) w.connections,
      )

  pub count-upsert-le : (p : Connection → Bool) → count p w.connections ≤ count p after.connections
  unfolding count
  count-upsert-le p = ground arith

  pub are_connected-upsert_other :
      (x y : Cuid) → are_connected x y w ≡ true → are_connected x y after ≡ true
  are_connected-upsert_other x y h = ground (
    arith,
    are_connected-eq-count x y w,
    are_connected-eq-count x y after,
    count-upsert-le (joins (pair_of x y)),
  )
