-- ===== src/Net/Examples/Clients.antt =====
-- A client whose first connection is on its way, and an acceptor that runs out of descriptors after one
-- connection.
use ham.Net.Connector.{Connector, connecting}
use ham.Net.TcpClient.{Connection, TcpClient}
use ham.Net.TcpClient.{destruct}
use ham.Net.TcpClient.Ending.{destruct-outcome, partings}
use ham.Net.Connector.Reachable.{IsSound}
use ham.Net.Connector.{is_null, is_connecting}
use ham.Net.Acceptor.{Outcome}
use ham.Net.Acceptor.Descriptors.{gets, gives, lifetime, lifetime-Accounts}
use ham.Base.{
  assert_failed, err, ℕ, ◌≡◌, refl, true, false, Option, none, some, List, [], ◌∷◌, arith, bytes,
  Returns,
}

abbrev first : Connection
first = record { name = bytes "c:h:80#1"; fd = 9 }

-- The connector with its channel and what it has done.
abbrev busy : Connector
busy = record {
  state = connecting;
  connect_channel = some (record { fd = 9; watched = true });
  connect_flag = true;
  shared = false;
  retry_delay_ms = 5000;
  valid_timer = false;
  effects = [];
}

abbrev client : ℕ → Connector → Option Connection → List Connection → TcpClient
client next connector established created = record {
  name = bytes "c";
  retry = false;
  connect_flag = true;
  next_conn_id = next;
  connector = connector;
  established = established;
  created = created;
  shut = [];
  to_destroy = [];
}

-- One connection is accepted as 9; the next one finds no descriptor and takes the place of 5.
abbrev outcomes : List Outcome
outcomes =
    record { connfd = some 9; is_emfile = false; accepted_again = none; reopened = none }
    ∷ record { connfd = none; is_emfile = true; accepted_again = some 5; reopened = some 5 }
    ∷ []

lifetime-Accounts_example :
    Returns (lifetime true 3 (some 5) outcomes) (λ a. gets 5 a.events ≡ gives 5 a.events)
lifetime-Accounts_example =
    lifetime-Accounts true 3 5 5 outcomes (omega arith) (ground arith, (ground arith, tt))

busy-IsSound : IsSound busy
busy-IsSound = record { watches = refl; at_least = omega arith; at_most = omega arith }

-- A client whose first connection is on its way.
abbrev waiting : TcpClient
waiting = client 1 busy none []

destruct-outcome_example :
    (is_null waiting.connector.connect_channel ≡ false → destruct true waiting ≡ err assert_failed)
    × (is_connecting waiting.connector.state ≡ true → destruct true waiting ≡ err assert_failed)
    × (is_null waiting.connector.connect_channel ≡ true
        → Returns
            (destruct true waiting)
            λ r. (r.0 ≡ partings true none) × (is_null r.1.connect_channel ≡ true))
destruct-outcome_example = destruct-outcome true waiting busy-IsSound
