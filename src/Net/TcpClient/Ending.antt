-- ===== src/Net/TcpClient/Ending.antt =====
-- ham/net/TcpClient.cc: the destructor.
use ham.Net.TcpClient.{
  Connection, TcpClient, Parting, replaces_close_callback, forces_close, keeps_connector, destruct,
}
use ham.Net.Connector.Ending.{destruct-channel, destruct-none, stop-channel}
use ham.Net.Connector.Reachable.{IsSound}
use ham.Net.Connector.Tracked.{watching}
use ham.Net.Connector.{Connector, Watch, stop, stop_in_loop, is_connecting, is_null, act}
use ham.Base.{
  Returns-eq, Option-cases, assert_failed, if-both, ◌≡◌, refl, sym, ap, ◌∙◌, inl, inr, Bool, true,
  false, Option, none, some, List, [], ◌∷◌, arith, if◌then◌else◌, err, Returns,
}

-- What a client does that ends: to its connection, or for its connector.
abbrev pub partings : Bool → Option Connection → List Parting
partings unique none = keeps_connector 1 ∷ []
partings unique (some conn) =
    replaces_close_callback conn ∷ (if unique then forces_close conn ∷ [] else [])

stop-none :
    (k : Connector)
    → k.connect_channel ≡ none
    → is_connecting k.state ≡ false
    → Returns (stop true k) λ k'. k'.connect_channel ≡ none
unfolding stop stop_in_loop act
stop-none k at idle =
    rw idle (if-both (λ (k' : Connector). k'.connect_channel ≡ none) k.valid_timer _ _ at at)

still_some :
    (k : Connector) → is_null k.connect_channel ≡ false → (w : Watch) × (k.connect_channel ≡ some w)
still_some k e = elim (Option-cases k.connect_channel) [
  | inl n ↦ absurd (ground (arith, n, e))
  | inr found ↦ found
]

no_channel : (k : Connector) → is_null k.connect_channel ≡ true → k.connect_channel ≡ none
no_channel k e = elim (Option-cases k.connect_channel) [
  | inl n ↦ n
  | inr (w, found) ↦ absurd (ground (arith, found, e))
]

with_channel :
    (unique : Bool) (c : TcpClient)
    → is_null c.connector.connect_channel ≡ false
    → destruct unique c ≡ err assert_failed
unfolding destruct
with_channel unique c busy =
    let (w, at) = still_some c.connector busy in
    elim (Option-cases c.established) [
      | inl n ↦
          let (k, e, held) =
            Returns-eq (stop true c.connector) _ (stop-channel true c.connector w at) in
          let (w', at') = still_some k held in rw (n, e, destruct-channel true k w' at') refl
      | inr (conn, y) ↦ rw (y, destruct-channel true c.connector w at) refl
    ]

without_channel :
    (unique : Bool) (c : TcpClient)
    → IsSound c.connector
    → c.connector.connect_channel ≡ none
    → Returns
        (destruct unique c)
        λ r. (r.0 ≡ partings unique c.established) × (is_null r.1.connect_channel ≡ true)
unfolding destruct
without_channel unique c h at =
    let idle : is_connecting c.connector.state ≡ false = sym h.watches ∙ ap watching at in
    elim (Option-cases c.established) [
      | inl n ↦
          let (k, e, gone) = Returns-eq (stop true c.connector) _ (stop-none c.connector at idle) in
          rw (n, e, destruct-none true k gone) (refl, ap is_null gone)
      | inr (conn, y) ↦ rw (y, destruct-none true c.connector at) (refl, ap is_null at)
    ]

-- A connector that is connecting has a channel.
connecting-channel :
    (k : Connector) → IsSound k → is_connecting k.state ≡ true → is_null k.connect_channel ≡ false
connecting-channel k h busy = elim (Option-cases k.connect_channel) [
  | inl n ↦ absurd (ground (arith, h.watches, ap watching n))
  | inr (w, found) ↦ ap is_null found
]

-- The destructor of a client aborts exactly when its connector still has a channel, which it has while it
-- is connecting and until the loop has run `resetChannel`. Otherwise the connection that is up gets
-- another close callback, and is told to close if the client alone holds it; with no connection the
-- connector is stopped.
pub destruct-outcome :
    (unique : Bool) (c : TcpClient)
    → IsSound c.connector
    → (is_null c.connector.connect_channel ≡ false → destruct unique c ≡ err assert_failed)
      × (is_connecting c.connector.state ≡ true → destruct unique c ≡ err assert_failed)
      × (is_null c.connector.connect_channel ≡ true
          → Returns
              (destruct unique c)
              λ r. (r.0 ≡ partings unique c.established) × (is_null r.1.connect_channel ≡ true))
unfolding destruct
destruct-outcome unique c h = (
  with_channel unique c,
  (λ busy. with_channel unique c (connecting-channel c.connector h busy)),
  (λ none_left. without_channel unique c h (no_channel c.connector none_left)),
)
