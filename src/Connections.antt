-- ===== src/Connections.antt =====
-- backend/src/connections/connections.service.ts: the pair of users that a connection joins, and
-- the queries on connections that this and the other services share.
pub mod Requests
mod Pairs
pub mod Consistency
pub mod Contacts
pub mod Invites
pub mod Reach
pub mod Outcomes
use corcy.Prelude.{
  Bool, true, Option, none, some, List, ◌∷◌, ◌&&◌, ◌==◌, ltb, is_some, if◌then◌else◌,
}
use corcy.Store.{Cuid, Time, Connection, World}
use corcy.Store.Table.{find_first, exists}

-- `a < b ? [a, b] : [b, a]`
abbrev pub pair_of : Cuid → Cuid → Cuid × Cuid
pair_of a b = if ltb a b then (a, b) else (b, a)

abbrev pub joins : Cuid × Cuid → Connection → Bool
joins p c = c.user_id_a == p.0 && c.user_id_b == p.1

-- `connection.findFirst({ where: { userIdA: uid1, userIdB: uid2 } })`
abbrev pub find_connection : Cuid → Cuid → World → Option Connection
find_connection a b w = find_first (joins (pair_of a b)) w.connections

abbrev pub are_connected : Cuid → Cuid → World → Bool
are_connected a b w = is_some (find_connection a b w)

-- `connection.upsert` on the pair, with an empty `update`.
abbrev pub upsert_connection : Cuid → Time → Cuid → Cuid → World → World
upsert_connection new_id now a b w =
    if exists (joins (pair_of a b)) w.connections then w else record w {
      connections =
          record {
            id = new_id;
            user_id_a = (pair_of a b).0;
            user_id_b = (pair_of a b).1;
            created_at = now;
          }
          ∷ w.connections;
    }
