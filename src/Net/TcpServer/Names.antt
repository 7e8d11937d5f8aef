-- ===== src/Net/TcpServer/Names.antt =====
-- The names of connections, the map at a name, and what a new connection is.
use ham.Base.Text.{decimal-injective, same_text, same_text_self, eq_of_same_text, append-cancel}
use ham.Net.LoopPool
use ham.Net.LoopPool.{EventLoopThreadPool, next_of, get_next_loop, loop_at}
use ham.Net.TcpServer.{
  start, Connection, ConnectionMap, TcpServer, assign, erase, connection_name, next_id,
  new_connection,
}
use ham.Base.{
  true, true, Result-cases, get_elem?, ==-self, Option-cases, Bool-cases, ℕ, suc, ◌+◌, ◌-◌, ◌^◌,
  ◌<◌, ◌≡◌, refl, sym, ◌∙◌, ◌≢◌, inl, inr, Bool, false, List, [], ◌∷◌, ◌++◌, arith, ltb, ◌==◌,
  if◌then◌else◌, bytes, ok,
}

same_text-false : (xs ys : List ℕ) → (xs ≢ ys) → same_text xs ys ≡ false
same_text-false xs ys differ = elim (Bool-cases (same_text xs ys)) [
  | inl same ↦ absurd (differ (eq_of_same_text xs ys same))
  | inr e ↦ e
]

connection_name-injective :
    (host : List ℕ) (i j : ℕ)
    → i < 2 ^ 31
    → j < 2 ^ 31
    → connection_name host i ≡ connection_name host j
    → i ≡ j
unfolding connection_name
connection_name-injective host i j hi hj e =
    decimal-injective i j (omega arith) (omega arith)
      (append-cancel (bytes "#") (append-cancel host e))

-- A name is that of the connection with its number, and of no other.
pub same_text-connection_name :
    (host : List ℕ) (i j : ℕ)
    → i < 2 ^ 31
    → j < 2 ^ 31
    → same_text (connection_name host i) (connection_name host j) ≡ (i == j)
same_text-connection_name host i j hi hj = elim (Bool-cases (i == j)) [
  | inl e ↦
      (let same : i ≡ j = ground arith in
        rw same (same_text_self (connection_name host j) ∙ sym (==-self j)))
  | inr e ↦ rw e (
      same_text-false (connection_name host i) (connection_name host j)
        (λ same. ground (arith, connection_name-injective host i j hi hj same)))
]

abbrev pub one : Bool → ℕ
one b = if b then 1 else 0

-- How many entries a map has under a name.
abbrev pub entries : List ℕ → ConnectionMap → ℕ
entries name [] = 0
entries name ((n, c) ∷ m) = one (same_text n name) + entries name m

-- How many connections of a list have a name.
abbrev pub count : List ℕ → List Connection → ℕ
count name [] = 0
count name (c ∷ cs) = one (same_text c.name name) + count name cs

pub count-middle :
    (name : List ℕ) (xs ys : List Connection) (c : Connection)
    → count name (xs ++ (c ∷ ys)) ≡ one (same_text c.name name) + count name (xs ++ ys)
count-middle name [] ys c = refl
count-middle name (x ∷ xs) ys c = omega (arith, count-middle name xs ys c)

pub entries-assign_other :
    (name n : List ℕ) (c : Connection) (m : ConnectionMap)
    → same_text name n ≡ false
    → entries n (assign name c m) ≡ entries n m
unfolding assign
entries-assign_other name n c [] e = ground arith
entries-assign_other name n c ((k, d) ∷ m) e =
    ground (arith, entries-assign_other name n c m e, eq_of_same_text k name)

entries-assign_new :
    (n : List ℕ) (c : Connection) (m : ConnectionMap)
    → entries n m ≡ 0
    → entries n (assign n c m) ≡ 1
unfolding assign
entries-assign_new n c [] e = ground (arith, same_text_self n)
entries-assign_new n c ((k, d) ∷ m) e = ground (arith, entries-assign_new n c m)

pub entries-erase_other :
    (name n : List ℕ) (m : ConnectionMap)
    → same_text name n ≡ false
    → entries n (erase name m) ≡ entries n m
unfolding erase
entries-erase_other name n [] e = refl
entries-erase_other name n ((k, d) ∷ m) e =
    ground (arith, entries-erase_other name n m e, eq_of_same_text k name)

entries-erase_self : (n : List ℕ) (m : ConnectionMap) → entries n (erase n m) ≡ entries n m - 1
unfolding erase
entries-erase_self n [] = omega arith
entries-erase_self n ((k, d) ∷ m) = ground (arith, entries-erase_self n m)

pub entries-erase_same :
    (name n : List ℕ) (m : ConnectionMap)
    → same_text name n ≡ true
    → entries n (erase name m) ≡ entries n m - 1
entries-erase_same name n m e = rw (eq_of_same_text name n e) (entries-erase_self n m)

pub entries-assign_same :
    (name n : List ℕ) (c : Connection) (m : ConnectionMap)
    → same_text name n ≡ true
    → entries n m ≡ 0
    → entries n (assign name c m) ≡ 1
entries-assign_same name n c m e = rw (eq_of_same_text name n e) (entries-assign_new n c m)

-- The base loop is not one that changes.
base-next_of :
    (loops : List ℕ) (p q : EventLoopThreadPool) (l : ℕ)
    → next_of loops p ≡ ok (l, q)
    → q.base_loop ≡ p.base_loop
unfolding next_of loop_at
base-next_of [] p q l e = ground (arith, e)
base-next_of (x ∷ xs) p q l e = elim (Option-cases (get_elem? (x ∷ xs) p.next_loop_idx)) [
  | inl k ↦ ground (arith, rw k at e)
  | inr (y, k) ↦ ground (arith, rw k at e)
]

-- A new connection has the name of the next number, and is in the map.
pub record Made (s : TcpServer) (c : Connection) (t : TcpServer) : Type 0 where
  pub name_lem : c.name ≡ connection_name s.host_port s.next_conn_id
  pub id-bound : suc s.next_conn_id < 2 ^ 31
  pub same_host : t.host_port ≡ s.host_port
  pub next_lem : t.next_conn_id ≡ suc s.next_conn_id
  pub same_base : t.pool.base_loop ≡ s.pool.base_loop
  pub connections_lem : t.connections ≡ assign c.name c s.connections

pub new_connection-Made :
    (fd : ℕ) (s : TcpServer) (c : Connection) (t : TcpServer)
    → new_connection fd s ≡ ok (c, t)
    → Made s c t
unfolding new_connection next_id get_next_loop
new_connection-Made fd s c t e = elim (Result-cases (next_of s.pool.loops s.pool)) [
  | inl (f, k) ↦ absurd (ground (arith, rw k at e))
  | inr ((l, q), k) ↦ elim (Bool-cases (ltb s.next_conn_id (2 ^ 31 - 1))) [
    | inl small ↦ ground (arith, rw (k, small) at e, base-next_of s.pool.loops s.pool q l k)
    | inr large ↦ absurd (ground (arith, rw (k, large) at e))
  ]
]

-- What starting a server leaves as it is.
pub record SameConnections (s t : TcpServer) : Type 0 where
  pub same_host : t.host_port ≡ s.host_port
  pub same_next : t.next_conn_id ≡ s.next_conn_id
  pub same_base : t.pool.base_loop ≡ s.pool.base_loop
  pub same_connections : t.connections ≡ s.connections

pub start-SameConnections :
    (start_loop : ℕ → ℕ) (s t : TcpServer) → start start_loop s ≡ ok t → SameConnections s t
unfolding start ham.Net.LoopPool.start
start-SameConnections start_loop s t e = elim (Bool-cases s.pool.started) [
  | inl started ↦ absurd (ground (arith, rw started at e))
  | inr fresh ↦ ground (arith, rw fresh at e)
]
