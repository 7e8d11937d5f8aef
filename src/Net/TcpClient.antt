-- ===== src/Net/TcpClient.antt =====
-- ham/net/TcpClient.cc, ham/net/TcpClient.h: a client, which has a connector and one connection at a
-- time, in the thread of its loop. A connection is known by its name and its descriptor, and the text of
-- the peer's address is an argument.
pub mod Ending
use ham.Net.Connector
use ham.Net.Connector.{
  Connector, new_connector, Errno, Effect, new_connection, restart, handle_write, handle_error,
  start_in_loop,
}
use ham.Base.Text.{decimal}
use ham.Base.{
  undefined, require, ℕ, zero, suc, ◌+◌, ◌-◌, ◌*◌, ◌/◌, ◌%◌, ◌^◌, ◌≤◌, ◌<◌, min, String, ◌≡◌, refl,
  sym, ap, ◌∙◌, ◌≢◌, ◌⊎◌, inl, inr, Bool, true, false, not, ◌&&◌, ◌||◌, Option, none, some, List,
  [], ◌∷◌, ◌++◌, arith, ltb, leb, ◌==◌, if◌then◌else◌, add_size, sub_size, length, take, drop,
  bytes, Result, ok, err, ◌>>=◌, ◌>>◌, assert, Returns,
}

pub record Connection : Type 0 where
  pub name : List ℕ
  pub fd : ℕ

-- `created`, `shut` and `to_destroy` are the connections that were made, those that were told to shut
-- down, and those whose `destoryConnection` was passed to the loop, the latest first.
pub record TcpClient : Type 0 where
  pub name : List ℕ
  pub retry : Bool
  pub connect_flag : Bool
  pub next_conn_id : ℕ
  pub connector : Connector
  pub established : Option Connection
  pub created : List Connection
  pub shut : List Connection
  pub to_destroy : List Connection

abbrev pub new_client : List ℕ → TcpClient
new_client name = record {
  name = name;
  retry = false;
  connect_flag = false;
  next_conn_id = 1;
  -- `connector_` is a `unique_ptr`.
  connector = new_connector false;
  established = none;
  created = [];
  shut = [];
  to_destroy = [];
}

unfoldable pub set_retry : Bool → TcpClient → TcpClient
set_retry on c = record c { retry = on }

-- The connector is started with the descriptor and the outcome of the first `connect`.
unfoldable pub connect : ℕ → Errno → TcpClient → Result TcpClient
connect fd errno c = do
  connector ← ham.Net.Connector.start true fd errno c.connector
  ok (record c { connect_flag = true; connector = connector })

unfoldable pub disconnect : TcpClient → TcpClient
disconnect c = shut_down c.established
  where
    shut_down : Option Connection → TcpClient
    shut_down none = record c { connect_flag = false }
    shut_down (some conn) = record c { connect_flag = false; shut = conn ∷ c.shut }

unfoldable pub stop : TcpClient → Result TcpClient
stop c = do
  connector ← ham.Net.Connector.stop true c.connector
  ok (record c { connect_flag = false; connector = connector })

-- The increment of the last `int` is undefined.
unfoldable pub client_connection : List ℕ → ℕ → TcpClient → Result TcpClient
client_connection peer fd c = do
  require (ltb c.next_conn_id (2 ^ 31 - 1)) undefined
  let conn : Connection = record {
    name = c.name ++ (bytes ":" ++ (peer ++ (bytes "#" ++ decimal c.next_conn_id)));
    fd = fd;
  }
  ok (record c {
    next_conn_id = suc c.next_conn_id;
    established = some conn;
    created = conn ∷ c.created;
  })

unfoldable pub remove_connection : Connection → ℕ → Errno → TcpClient → Result TcpClient
remove_connection conn fd errno c =
    let removed = record c { established = none; to_destroy = conn ∷ c.to_destroy } in
    if removed.retry && removed.connect_flag then reconnect removed else ok removed
  where
    reconnect : TcpClient → Result TcpClient
    reconnect removed = do
      connector ← restart fd errno removed.connector
      ok (record removed { connector = connector })

-- The last call of `handleWrite` of the connector is that of its callback, which is `newConnection`.
unfoldable pub deliver : List ℕ → List Effect → TcpClient → Result TcpClient
unfolding client_connection
deliver peer [] c = ok c
deliver peer (new_connection fd ∷ es) c = client_connection peer fd c >>= deliver peer es
deliver peer (_ ∷ es) c = deliver peer es c

unfoldable pub connector_writable : List ℕ → Bool → Bool → TcpClient → Result TcpClient
unfolding deliver
connector_writable peer so_error self c = do
  connector ← handle_write so_error self c.connector
  deliver peer (drop (length c.connector.effects) connector.effects)
      (record c { connector = connector })

-- What the destructor does besides: to the connection that is up, or for the connector.
pub data Parting : Type 0 where
  replaces_close_callback : Connection → Parting
  forces_close : Connection → Parting
  keeps_connector : ℕ → Parting

-- `unique` is whether the client alone holds the connection. The delayed `removeConnector` does nothing,
-- and the connector is destroyed with the client.
unfoldable pub destruct : Bool → TcpClient → Result (List Parting × Connector)
destruct unique c = do
  (partings, connector) ← part c.established
  gone ← ham.Net.Connector.destruct true connector
  ok (partings, gone)
  where
    part : Option Connection → Result (List Parting × Connector)
    part (some conn) = ok (
      replaces_close_callback conn ∷ (if unique then forces_close conn ∷ [] else []),
      c.connector,
    )
    part none = do
      connector ← ham.Net.Connector.stop true c.connector
      ok (keeps_connector 1 ∷ [], connector)
