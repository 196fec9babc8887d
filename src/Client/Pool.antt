-- ===== src/Client/Pool.antt =====
-- `ConnectionPool` of src/connection.cc: the connections to one service, and the one that is
-- looked at first.
use roshanfer_sidecar.Base.{
  ℕ, zero, suc, ◌+◌, ◌*◌, List, [], ◌∷◌, Bool, true, false, ◌&&◌, ◌||◌, not, Option, none, some,
  length, get_elem?, ◌==◌, if◌then◌else◌, fatal, undefined, no_fuel, Result, ok, err, or_fault, ite,
}
use roshanfer_sidecar.Base.Int.{ℤ, ℤ_discrete}

pub data ConnectionStatus : Type 0 where
  up down teardown : ConnectionStatus

-- What the pool reads of an `HTTPConnection`.
pub record Connection : Type 0 where
  pub fd : ℤ
  pub http1 : Bool
  pub idle : Bool
  pub status : ConnectionStatus

unfoldable pub is_up : ConnectionStatus → Bool
is_up up = true
is_up down = false
is_up teardown = false

-- `available` of both classes.
unfoldable pub available : Connection → Bool
available c = (not c.http1 || c.idle) && is_up c.status

-- The connections in the order in which the map goes through them; `next_conn` is a place in it,
-- or the number of the connections where the iterator is `end()`.
pub record ConnectionPool : Type 0 where
  pub connections : List Connection
  pub next_conn : ℕ
  pub addr : Option ℕ

unfoldable pub find_connection : List Connection → ℤ → Option Connection
find_connection [] fd = none
find_connection (c ∷ cs) fd = ite (ℤ_discrete c.fd fd) (some c) (find_connection cs fd)

unfoldable pub drop_connection : List Connection → ℤ → List Connection
drop_connection [] fd = []
drop_connection (c ∷ cs) fd = ite (ℤ_discrete c.fd fd) cs (c ∷ drop_connection cs fd)

-- `get_addr`
unfoldable pub get_addr : ConnectionPool → Result ℕ
get_addr p = or_fault p.addr fatal

-- `has_connection`
unfoldable pub has_connection : ConnectionPool → ℤ → Bool
has_connection p fd = elim (find_connection p.connections fd) [ none ↦ false | some c ↦ true ]

-- `get_connection`
unfoldable pub get_connection : ConnectionPool → ℤ → Result Connection
get_connection p fd = or_fault (find_connection p.connections fd) fatal

-- `add_connection` of a connection that was made; `arrange` is the order in which the map goes
-- through its entries once it has one more.
unfoldable pub add_connection :
    (List Connection → List Connection) → Connection → ℕ → ConnectionPool → ConnectionPool
add_connection arrange c addr p = record {
  connections = elim (find_connection p.connections c.fd) [
    | none ↦ arrange (c ∷ p.connections)
    | some old ↦ p.connections
  ];
  next_conn = 0;
  addr = elim p.addr [ none ↦ some addr | some old ↦ some old ];
}

-- `remove_connection`
unfoldable pub remove_connection : ℤ → ConnectionPool → ConnectionPool
remove_connection fd p = record p { connections = drop_connection p.connections fd; next_conn = 0 }

-- The loop of `get_any_connection`; `none` is its exception. What `end()` points at may not be
-- read.
unfoldable pub scan : ℕ → Bool → ConnectionPool → Result (Option Connection × ConnectionPool)
scan zero wrap p = err no_fuel
scan (suc fuel) wrap p =
    let n = p.next_conn + 1 in
    let at_end = n == length p.connections in
    let rest = scan fuel (wrap || at_end) (record p { next_conn = if at_end then 0 else n }) in
    elim (get_elem? p.connections p.next_conn) [
      | none ↦ err undefined
      | some c ↦
          if available c
          then ok (some c, p)
          else if wrap && at_end
          then ok (none, record p { next_conn = n })
          else rest
    ]

-- `get_any_connection`: the loop goes through the map twice at most.
unfoldable pub get_any_connection : ConnectionPool → Result (Option Connection × ConnectionPool)
get_any_connection p =
    if length p.connections == 0 then ok (none, p) else scan (2 * length p.connections) false p
