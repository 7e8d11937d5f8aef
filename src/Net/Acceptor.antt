-- ===== src/Net/Acceptor.antt =====
-- ham/net/Acceptor.cc, ham/net/Acceptor.h: the listening socket and the descriptors that it accepts.
pub mod Descriptors
use ham.Net.Channel.{Channel, new_channel, enable_reading, disable_all}
use ham.Base.{
  assert_failed, ℕ, zero, suc, ◌+◌, ◌-◌, ◌*◌, ◌/◌, ◌%◌, ◌^◌, ◌≤◌, ◌<◌, min, String, ◌≡◌, refl, sym,
  ap, ◌∙◌, ◌≢◌, ◌⊎◌, inl, inr, Bool, true, false, not, ◌&&◌, ◌||◌, Option, none, some, List, [],
  ◌∷◌, ◌++◌, arith, ltb, leb, ◌==◌, if◌then◌else◌, add_size, sub_size, length, take, drop, bytes,
  Result, ok, err, ◌>>=◌, ◌>>◌, assert, Returns,
}

-- What happens to a descriptor: a system call returns it, it is closed, or it goes to the callback. A
-- close of -1 has no effect on one.
pub data Event : Type 0 where
  got : ℕ → Event
  closed : ℕ → Event
  handed : ℕ → Event

-- -1 is `none`.
pub record Acceptor : Type 0 where
  pub listening : Bool
  pub idle_fd : Option ℕ
  pub accept_channel : Channel
  pub has_callback : Bool
  pub events : List Event

-- The socket, and the descriptor that `open` returns. `idleFd_` is asserted to be positive.
unfoldable pub new_acceptor : ℕ → Option ℕ → Result Acceptor
new_acceptor socket none = err assert_failed
new_acceptor socket (some fd) = do
  assert (ltb 0 fd)
  ok (record {
    listening = false;
    idle_fd = some fd;
    accept_channel = new_channel socket;
    has_callback = false;
    events = got fd ∷ [];
  })

unfoldable pub set_new_conn_callback : Acceptor → Acceptor
set_new_conn_callback a = record a { has_callback = true }

unfoldable pub listen : Acceptor → Acceptor
listen a = record a { listening = true; accept_channel = enable_reading a.accept_channel }

unfoldable pub close : Option ℕ → Acceptor → Acceptor
close none a = a
close (some fd) a = record a { events = a.events ++ (closed fd ∷ []) }

-- A system call that returns a descriptor or -1.
unfoldable pub receive : Option ℕ → Acceptor → Acceptor
receive none a = a
receive (some fd) a = record a { events = a.events ++ (got fd ∷ []) }

unfoldable pub hand_on : ℕ → Acceptor → Acceptor
unfolding close
hand_on fd a =
    if a.has_callback then record a { events = a.events ++ (handed fd ∷ []) } else close (some fd) a

-- The outcomes of the calls: of `accept`, whether `errno` is then EMFILE, of the `accept` in the place of
-- the idle descriptor, and of the `open` of a new one.
pub record Outcome : Type 0 where
  pub connfd : Option ℕ
  pub is_emfile : Bool
  pub accepted_again : Option ℕ
  pub reopened : Option ℕ

-- There is no descriptor left: the connection takes the place of the idle one, and is closed.
unfoldable pub refuse : Outcome → Acceptor → Acceptor
unfolding close receive
refuse o a =
    let idle_closed = close a.idle_fd a in
    let again = receive o.accepted_again idle_closed in
    let refused = close o.accepted_again again in
    record (receive o.reopened refused) { idle_fd = o.reopened }

unfoldable pub accept_failed : Outcome → Acceptor → Acceptor
unfolding refuse
accept_failed o a = if o.is_emfile then refuse o a else a

unfoldable pub accepted : Option ℕ → Outcome → Acceptor → Acceptor
unfolding hand_on accept_failed
accepted none o a = accept_failed o a
accepted (some fd) o a = if ltb 0 fd then hand_on fd a else accept_failed o a

unfoldable pub handle_read : Outcome → Acceptor → Acceptor
unfolding receive accepted
handle_read o a = accepted o.connfd o (receive o.connfd a)

-- The destructor, with the removal of the channel from the poller.
unfoldable pub destruct : Acceptor → Acceptor
unfolding close
destruct a = close a.idle_fd (record a { accept_channel = disable_all a.accept_channel })
