-- ===== src/Pfs/Pool/Exclusive.antt =====
-- Who holds the connections of the pool.
use grage_fat.Base.{
  ==_self, ==_other, ℕ, ◌≤◌, ◌≡◌, ◌≢◌, refl, sym, ap, subst, ◌∙◌, true, false, none, some, List, [],
  ◌∷◌, ◌==◌, ltb, if◌then◌else◌, Bool-cases, Option-cases, inl, inr, arith, All, length, suc,
}
use grage_fat.Commons.LinkedList.{LinkedList, add_node, order_always_first}
use grage_fat.Commons.LinkedList.Remove.{IsCounted, add_node-IsCounted}
use grage_fat.Commons.Queue.{insert_node-first}
use grage_fat.Pfs.Pool.{
  PooledConnection, Pool, Lent, wait, lent, take_inactive, get_pooled_connection,
  build_and_add_pooled_connection,
}

-- Every connection of a list has another socket than `s`.
abbrev pub HasNot : ℕ → List PooledConnection → Type 0
HasNot s conns = All (λ c. c.listen_socket ≢ s) conns

abbrev pub AreApart : List PooledConnection → Type 0
AreApart [] = Unit
AreApart (conn ∷ conns) = HasNot conn.listen_socket conns × AreApart conns

-- How often a socket is in use.
abbrev pub uses : ℕ → List PooledConnection → ℕ
uses s [] = 0
uses s (conn ∷ conns) =
    if conn.active
    then (if conn.listen_socket == s then suc (uses s conns) else uses s conns)
    else uses s conns

-- A pool as the process builds it.
pub record IsPool (pool : Pool) : Type 0 where
  pub apart : AreApart pool.pooled_connections.elements
  pub counted : IsCounted pool.pooled_connections
  pub newest_first : pool.pooled_connections.sorting_criteria ≡ order_always_first

uses-HasNot : (s : ℕ) (conns : List PooledConnection) → HasNot s conns → uses s conns ≡ 0
uses-HasNot s [] h = refl
uses-HasNot s (conn ∷ conns) h = ground (arith, h.0, uses-HasNot s conns h.1)

-- What lending does: the socket that is lent was free, and is used once; no other use changes.
record Lends (s : ℕ) (old new : List PooledConnection) : Type 0 where
  was_free : uses s old ≡ 0
  used_once : uses s new ≡ 1
  others : (t : ℕ) → t ≢ s → uses t new ≡ uses t old
  still_apart : AreApart new

-- The connections of the pool are the same.
record Stays (s : ℕ) (old new : List PooledConnection) : Type 0 where
  same_length : length new ≡ length old
  no_new : (t : ℕ) → HasNot t old → HasNot t new × (s ≢ t)

abbrev activate : PooledConnection → PooledConnection
activate conn = record conn { active = true }

here-Lends :
    (conn : PooledConnection) (conns : List PooledConnection)
    → conn.active ≡ false
    → AreApart (conn ∷ conns)
    → Lends conn.listen_socket (conn ∷ conns) (activate conn ∷ conns)
      × Stays conn.listen_socket (conn ∷ conns) (activate conn ∷ conns)
here-Lends conn conns i a =
    let free = uses-HasNot conn.listen_socket conns a.0 in
    (
      record {
        was_free = rw i free;
        used_once = rw (==_self conn.listen_socket) (ap suc free);
        others = λ t o. ground (arith, i, o);
        still_apart = a;
      },
      record { same_length = refl; no_new = λ t h. (h, h.0) },
    )

later-Lends :
    (conn : PooledConnection) (s : ℕ) (conns conns' : List PooledConnection)
    → conn.active ≡ true
    → AreApart (conn ∷ conns)
    → Lends s conns conns'
    → Stays s conns conns'
    → Lends s (conn ∷ conns) (conn ∷ conns') × Stays s (conn ∷ conns) (conn ∷ conns')
later-Lends conn s conns conns' i a l k =
    let (without, other) = k.no_new conn.listen_socket a.0 in
    let differs : (conn.listen_socket == s) ≡ false =
      ==_other conn.listen_socket s (λ e. other (sym e)) in
    (
      record {
        was_free = rw (i, differs) l.was_free;
        used_once = rw (i, differs) l.used_once;
        others = λ t o. rw (i, l.others t o);
        still_apart = (without, l.still_apart);
      },
      record {
        same_length = ap suc k.same_length;
        no_new = λ t h. let (n, o) = k.no_new t h.1 in ((h.0, n), o);
      },
    )

take_inactive-Lends :
    (conns : List PooledConnection) (s : ℕ) (conns' : List PooledConnection)
    → AreApart conns
    → take_inactive conns ≡ some (s, conns')
    → Lends s conns conns' × Stays s conns conns'
unfolding take_inactive
take_inactive-Lends [] s conns' a e = absurd cc
take_inactive-Lends (conn ∷ conns) s conns' a e = elim (Bool-cases conn.active) [
  | inr i ↦
      subst (λ p. Lends p.0 (conn ∷ conns) p.1 × Stays p.0 (conn ∷ conns) p.1)
        (some_injective (rw i at e)) (here-Lends conn conns i a)
  | inl i ↦ elim (Option-cases (take_inactive conns)) [
    | inl f ↦ absurd (cc (rw (i, f) at e))
    | inr ((t, later), f) ↦
        let (l, k) = take_inactive-Lends conns t later a.1 f in
        subst (λ p. Lends p.0 (conn ∷ conns) p.1 × Stays p.0 (conn ∷ conns) p.1)
          (some_injective (rw (i, f) at e)) (later-Lends conn t conns later i a l k)
  ]
]
  where
    some_injective : {x y : ℕ × List PooledConnection} → some x ≡ some y → x ≡ y
    some_injective n = cc

-- No connection is lent when the loop finds none.
take_inactive-none :
    (conns : List PooledConnection) → take_inactive conns ≡ none → All (λ c. c.active ≡ true) conns
unfolding take_inactive
take_inactive-none [] e = tt
take_inactive-none (conn ∷ conns) e = elim (Bool-cases conn.active) [
  | inr i ↦ absurd (cc (rw i at e))
  | inl i ↦ elim (Option-cases (take_inactive conns)) [
    | inl f ↦ (i, take_inactive-none conns f)
    | inr ((t, later), f) ↦ absurd (cc (rw (i, f) at e))
  ]
]

-- What a caller finds: a connection that nobody holds and that is his from then on, the others'
-- being as they were, or none because all that the pool may have are in use.
abbrev pub Outcome : Pool → Lent → Pool → Type 0
Outcome pool wait pool' =
    (pool' ≡ pool)
    × All (λ c. c.active ≡ true) pool.pooled_connections.elements
    × (pool.pooled_connections_max_count ≤ pool.pooled_connections.size)
Outcome pool (lent s) pool' =
    (uses s pool.pooled_connections.elements ≡ 0)
    × (uses s pool'.pooled_connections.elements ≡ 1)
    × ((t : ℕ)
        → t ≢ s
        → uses t pool'.pooled_connections.elements ≡ uses t pool.pooled_connections.elements)
    × IsPool pool'

new-Lends :
    (ls : ℕ) (conns : List PooledConnection)
    → HasNot ls conns
    → AreApart conns
    → Lends ls conns (record { active = true; listen_socket = ls } ∷ conns)
new-Lends ls conns h a = record {
  was_free = uses-HasNot ls conns h;
  used_once = rw (==_self ls) (ap suc (uses-HasNot ls conns h));
  others = λ t o. rw (==_other ls t (λ e. o (sym e)));
  still_apart = (h, a);
}

add_node-first :
    (l : LinkedList PooledConnection) (conn : PooledConnection)
    → l.sorting_criteria ≡ order_always_first
    → (add_node l conn).elements ≡ conn ∷ l.elements
unfolding add_node
add_node-first l conn f = rw f (insert_node-first conn l.elements)

build_and_add-Outcome :
    (ls : ℕ) (pool : Pool)
    → IsPool pool
    → ls ≢ 0
    → HasNot ls pool.pooled_connections.elements
    → (pool' : Pool) × (build_and_add_pooled_connection ls pool ≡ some (ls, pool'))
      × Outcome pool (lent ls) pool'
unfolding build_and_add_pooled_connection
build_and_add-Outcome ls pool p z h =
    let new : PooledConnection = record { active = true; listen_socket = ls } in
    let first = add_node-first pool.pooled_connections new p.newest_first in
    let l = new-Lends ls pool.pooled_connections.elements h p.apart in
    (
      record pool { pooled_connections = add_node pool.pooled_connections new },
      rw (==_other ls 0 z) refl,
      (
        l.was_free,
        ap (uses ls) first ∙ l.used_once,
        (λ t o. ap (uses t) first ∙ l.others t o),
        record {
          apart = subst AreApart (sym first) l.still_apart;
          counted = add_node-IsCounted pool.pooled_connections new p.counted;
          newest_first = unfold add_node in p.newest_first;
        },
      ),
    )

taken-Outcome :
    (s : ℕ) (conns' : List PooledConnection) (pool : Pool)
    → IsPool pool
    → take_inactive pool.pooled_connections.elements ≡ some (s, conns')
    → Outcome pool (lent s) (record pool {
      pooled_connections = record (pool.pooled_connections) { elements = conns' };
    })
taken-Outcome s conns' pool p e =
    let (l, k) = take_inactive-Lends pool.pooled_connections.elements s conns' p.apart e in
    (
      l.was_free,
      l.used_once,
      l.others,
      record {
        apart = l.still_apart;
        counted = p.counted ∙ sym k.same_length;
        newest_first = p.newest_first;
      },
    )

-- A caller never gets a connection that another one holds: he gets one that nobody held, be it new
-- or released, and from then on it is in use once, while the others' are as they were; or he has
-- to wait, because all are in use and there are as many as configured. The socket of a new
-- connection is not 0 and not one of the pool's.
pub get_pooled_connection-Outcome :
    (ls : ℕ) (pool : Pool)
    → IsPool pool
    → ls ≢ 0
    → HasNot ls pool.pooled_connections.elements
    → (r : Lent) × (pool' : Pool) × (get_pooled_connection ls pool ≡ some (r, pool'))
      × Outcome pool r pool'
unfolding get_pooled_connection
get_pooled_connection-Outcome ls pool p z h =
    elim (Bool-cases (pool.pooled_connections.size == 0)) [
      | inl e ↦ rw (e, built) (lent ls, fresh, refl, outcome)
      | inr e ↦ elim (Option-cases (take_inactive pool.pooled_connections.elements)) [
        | inr ((s, conns'), f) ↦ rw (e, f) (lent s, _, refl, taken-Outcome s conns' pool p f)
        | inl f ↦
            elim (Bool-cases (ltb pool.pooled_connections.size pool.pooled_connections_max_count)) [
              | inl g ↦ rw (e, f, g, built) (lent ls, fresh, refl, outcome)
              | inr g ↦
                  rw (e, f, g)
                    (
                      wait,
                      pool,
                      refl,
                      (
                        refl,
                        take_inactive-none pool.pooled_connections.elements f,
                        ground (arith, g),
                      ),
                    )
            ]
      ]
    ]
  where
    make :
        (pool' : Pool) × (build_and_add_pooled_connection ls pool ≡ some (ls, pool'))
        × Outcome pool (lent ls) pool'
    make = build_and_add-Outcome ls pool p z h

    fresh : Pool
    fresh = make.0

    built : build_and_add_pooled_connection ls pool ≡ some (ls, fresh)
    built = make.1

    outcome : Outcome pool (lent ls) fresh
    outcome = make.2
