-- ===== src/Net/Connector/Refused.antt =====
-- A connect that is refused at once.
use ham.Base.{assert_failed, ℕ, ◌≡◌, Bool, true, false, arith, err}
use ham.Net.Connector.{
  eagain, eaddrinuse, eaddrnotavail, econnrefused, enetunreach, disconnected, Errno, Connector,
}
use ham.Net.Connector.{retry, connect, Connector, start_in_loop}
use ham.Base.{false, true, Bool, ℕ}

-- The errors after which the code means to try again.
abbrev pub is_soft : Errno → Bool
is_soft eagain = true
is_soft eaddrinuse = true
is_soft eaddrnotavail = true
is_soft econnrefused = true
is_soft enetunreach = true
is_soft _ = false

connect-refused :
    (fd : ℕ) (errno : Errno) (c : Connector)
    → is_soft errno ≡ true
    → c.state ≡ disconnected
    → connect fd errno c ≡ err assert_failed
unfolding connect retry
connect-refused fd errno c soft down = grind arith

-- A start that meets a soft error at once does not try again: the state is still `kDisconnected`, and
-- the assertion of `retry` fails.
pub start_in_loop-refused :
    (fd : ℕ) (errno : Errno) (c : Connector)
    → is_soft errno ≡ true
    → c.state ≡ disconnected
    → c.connect_flag ≡ true
    → start_in_loop fd errno c ≡ err assert_failed
unfolding start_in_loop
start_in_loop-refused fd errno c soft down wanted =
    simp (down, wanted) (connect-refused fd errno c soft down)
