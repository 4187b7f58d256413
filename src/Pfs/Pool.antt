-- ===== src/Pfs/Pool.antt =====
-- grage-pfs/app/src/core/pfs-connection-pool.c: the connections that threads share. The mutex makes
-- each function one step. A connection is known by its socket. `none` is the end of the process.
pub mod Exclusive
use grage_fat.Base.{
  ℕ, Bool, true, false, not, Option, none, some, List, [], ◌∷◌, ◌==◌, ltb, if◌then◌else◌,
}
use grage_fat.Commons.LinkedList.{LinkedList, build_list, order_always_first, add_node}

pub record PooledConnection : Type 0 where
  pub active : Bool
  pub listen_socket : ℕ

-- `pooled_connections_max_count` is the configured number, which `initialize` copies and which is
-- not negative.
pub record Pool : Type 0 where
  pub pooled_connections : LinkedList PooledConnection
  pub pooled_connections_max_count : ℕ

unfoldable pub same_connection : PooledConnection → PooledConnection → Bool
same_connection p1 p2 = p1.listen_socket == p2.listen_socket

unfoldable pub initialize : ℕ → Pool
initialize max_connections = record {
  pooled_connections = build_list same_connection order_always_first;
  pooled_connections_max_count = max_connections;
}

-- `pfs_pool_buildAndAddPooledConnection`; `ls` is the socket that the handshake gives.
unfoldable pub build_and_add_pooled_connection : ℕ → Pool → Option (ℕ × Pool)
build_and_add_pooled_connection ls pool =
    if ls == 0
    then none
    else some (
      ls,
      record pool {
        pooled_connections =
            add_node pool.pooled_connections (record { active = true; listen_socket = ls });
      },
    )

-- The loop over the pool: the first connection that is not active becomes so.
unfoldable pub take_inactive : List PooledConnection → Option (ℕ × List PooledConnection)
take_inactive [] = none
take_inactive (conn ∷ conns) =
    let later = take_inactive conns in
    if not conn.active
    then some (conn.listen_socket, record conn { active = true } ∷ conns)
    else (elim later [ none ↦ none | some (s, conns') ↦ some (s, conn ∷ conns') ])

-- What a caller gets: a connection's socket, or `wait` where the source returns `NULL`.
pub data Lent : Type 0 where
  wait : Lent
  lent : ℕ → Lent

abbrev added : Option (ℕ × Pool) → Option (Lent × Pool)
added none = none
added (some (s, pool)) = some (lent s, pool)

-- `pfs_pool_getPooledConnection`.
unfoldable pub get_pooled_connection : ℕ → Pool → Option (Lent × Pool)
unfolding take_inactive build_and_add_pooled_connection
get_pooled_connection ls pool =
    if pool.pooled_connections.size == 0
    then added (build_and_add_pooled_connection ls pool)
    else (elim (take_inactive pool.pooled_connections.elements) [
      | some (s, conns) ↦ some (
        lent s,
        record pool { pooled_connections = record (pool.pooled_connections) { elements = conns } },
      )
      | none ↦
          if ltb pool.pooled_connections.size pool.pooled_connections_max_count
          then added (build_and_add_pooled_connection ls pool)
          else some (wait, pool)
    ])

-- `pfs_pool_releaseConnection`, through the pointer to a connection of the pool.
unfoldable pub release_elements : ℕ → List PooledConnection → List PooledConnection
release_elements s [] = []
release_elements s (conn ∷ conns) =
    if conn.listen_socket == s
    then record conn { active = false } ∷ conns
    else conn ∷ release_elements s conns

unfoldable pub release_connection : ℕ → Pool → Pool
unfolding release_elements
release_connection s pool = record pool {
  pooled_connections = record (pool.pooled_connections) {
    elements = release_elements s pool.pooled_connections.elements;
  };
}
