-- ===== src/Net/Channel.antt =====
-- ham/net/Channel.h, ham/net/Channel.cc: the events of one descriptor. A channel does not own its
-- callbacks here: `handle_event` yields which of them it calls, in order.
pub mod Dispatch
use ham.Base.Text.{decimal}
use ham.Base.{
  ℕ, zero, suc, ◌+◌, ◌-◌, ◌*◌, ◌/◌, ◌%◌, ◌^◌, ◌≤◌, ◌<◌, min, String, ◌≡◌, refl, sym, ap, ◌∙◌, ◌≢◌,
  ◌⊎◌, inl, inr, Bool, true, false, not, ◌&&◌, ◌||◌, Option, none, some, List, [], ◌∷◌, ◌++◌, arith,
  ltb, leb, ◌==◌, if◌then◌else◌, add_size, sub_size, length, take, drop, bytes, Result, ok, err,
  ◌>>=◌, ◌>>◌, assert, Returns,
}

-- The bits of `struct epoll_event::events` that the code names.
pub record Events : Type 0 where
  pub input : Bool
  pub priority : Bool
  pub output : Bool
  pub hangup : Bool
  pub read_hangup : Bool
  pub error : Bool

-- `kNoneEvent_`.
abbrev pub none_event : Events
none_event = record {
  input = false;
  priority = false;
  output = false;
  hangup = false;
  read_hangup = false;
  error = false;
}

pub data Status : Type 0 where
  new : Status
  added : Status
  dismissed : Status

pub record Channel : Type 0 where
  pub fd : ℕ
  pub event : Events
  pub revent : Events
  pub status : Status
  pub is_handling_event : Bool
  pub tied : Bool

abbrev pub new_channel : ℕ → Channel
new_channel n = record {
  fd = n;
  event = none_event;
  revent = none_event;
  status = new;
  is_handling_event = false;
  tied = false;
}

-- `update()` passes the channel to the loop's poller after each of these changes of `event_`.
unfoldable pub enable_reading : Channel → Channel
enable_reading c = record c { event = record c.event { input = true; priority = true } }

unfoldable pub enable_writing : Channel → Channel
enable_writing c = record c { event = record c.event { output = true } }

unfoldable pub disable_writing : Channel → Channel
disable_writing c = record c { event = record c.event { output = false } }

unfoldable pub disable_all : Channel → Channel
disable_all c = record c { event = none_event }

unfoldable pub is_writing : Channel → Bool
is_writing c = c.event.output

any_event : Events → Bool
any_event e = e.input || (e.priority || (e.output || (e.hangup || (e.read_hangup || e.error))))

unfoldable pub is_none_event : Channel → Bool
unfolding any_event
is_none_event c = not (any_event c.event)

unfoldable pub tie : Channel → Channel
tie c = record c { tied = true }

pub data Callback : Type 0 where
  on_close : Callback
  on_error : Callback
  on_read : Callback
  on_write : Callback

-- Which callbacks are set.
pub record Callbacks : Type 0 where
  pub close_cb : Bool
  pub error_cb : Bool
  pub read_cb : Bool
  pub write_cb : Bool

abbrev pub call_if : Bool → Bool → Callback → List Callback
call_if wanted set f = if wanted then (if set then f ∷ [] else []) else []

unfoldable pub handle_event_with_guard : Callbacks → Channel → List Callback
handle_event_with_guard cb c =
    call_if (c.revent.hangup && not c.revent.input) cb.close_cb on_close
    ++ (call_if c.revent.error cb.error_cb on_error
        ++ (call_if (c.revent.input || (c.revent.priority || c.revent.read_hangup)) cb.read_cb
              on_read
            ++ call_if c.revent.output cb.write_cb on_write))

-- `alive` is whether the tied object can still be locked.
unfoldable pub handle_event : Callbacks → Bool → Channel → List Callback
unfolding handle_event_with_guard
handle_event cb alive c =
    if c.tied
    then (if alive then handle_event_with_guard cb c else [])
    else handle_event_with_guard cb c

-- `~Channel`.
unfoldable pub destruct : Channel → Result (Unit {0})
destruct c = assert (not c.is_handling_event)

-- `eventsToString(fd, event)`, which `eventsToString()` and `reventsToString` call.
unfoldable pub events_to_string : ℕ → Events → List ℕ
events_to_string fd e =
    decimal fd
    ++ (bytes ": "
        ++ ((if e.input then bytes "IN " else [])
            ++ ((if e.priority then bytes "PRI " else [])
                ++ ((if e.output then bytes "OUT " else [])
                    ++ ((if e.hangup then bytes "HUP " else [])
                        ++ ((if e.read_hangup then bytes "RDHUP " else [])
                            ++ (if e.error then bytes "ERR " else [])))))))

unfoldable pub revents_to_string : Channel → List ℕ
unfolding events_to_string
revents_to_string c = events_to_string c.fd c.revent
