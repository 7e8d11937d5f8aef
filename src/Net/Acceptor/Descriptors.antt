-- ===== src/Net/Acceptor/Descriptors.antt =====
-- ham/net/Acceptor.cc: where the descriptors go.
use ham.Net.Acceptor.{
  Event, got, closed, handed, Acceptor, close, receive, hand_on, Outcome, refuse, accept_failed,
  accepted, handle_read, listen, new_acceptor, set_new_conn_callback, destruct,
}
use ham.Net.Channel.{new_channel, disable_all}
use ham.Base.{
  Bool, if-both, lt→ltb, Bool-cases, ℕ, zero, suc, ◌+◌, ◌<◌, ◌≡◌, refl, ap, ◌≢◌, inl, inr, false,
  Option, none, some, List, [], ◌∷◌, ◌++◌, arith, ◌==◌, if◌then◌else◌, Result, ok, ◌>>=◌, Returns,
}

-- What an event takes from or adds to the descriptors that the acceptor has, for one number.
abbrev pub is_fd : ℕ → ℕ → ℕ
is_fd d fd = if d == fd then 1 else 0

abbrev pub gets : ℕ → List Event → ℕ
gets d [] = 0
gets d (got fd ∷ es) = is_fd d fd + gets d es
gets d (_ ∷ es) = gets d es

abbrev pub gives : ℕ → List Event → ℕ
gives d [] = 0
gives d (got fd ∷ es) = gives d es
gives d (closed fd ∷ es) = is_fd d fd + gives d es
gives d (handed fd ∷ es) = is_fd d fd + gives d es

abbrev pub holds : ℕ → Option ℕ → ℕ
holds d none = 0
holds d (some fd) = is_fd d fd

-- What the system calls have returned was handed on or closed, but for the idle descriptor.
abbrev pub Accounts : Acceptor → Type 0
Accounts a = (d : ℕ) → gets d a.events ≡ gives d a.events + holds d a.idle_fd

gets-append : (d : ℕ) (es fs : List Event) → gets d (es ++ fs) ≡ gets d es + gets d fs
gets-append d [] fs = omega arith
gets-append d (got fd ∷ es) fs = omega (arith, gets-append d es fs)
gets-append d (closed fd ∷ es) fs = gets-append d es fs
gets-append d (handed fd ∷ es) fs = gets-append d es fs

gives-append : (d : ℕ) (es fs : List Event) → gives d (es ++ fs) ≡ gives d es + gives d fs
gives-append d [] fs = omega arith
gives-append d (got fd ∷ es) fs = gives-append d es fs
gives-append d (closed fd ∷ es) fs = omega (arith, gives-append d es fs)
gives-append d (handed fd ∷ es) fs = omega (arith, gives-append d es fs)

-- Counts of an acceptor's events after one more.
record Moves (d got_more given_more : ℕ) (a b : Acceptor) : Type 0 where
  more_got : gets d b.events ≡ gets d a.events + got_more
  more_given : gives d b.events ≡ gives d a.events + given_more
  same_idle : b.idle_fd ≡ a.idle_fd

close-Moves : (d : ℕ) (fd : Option ℕ) (a : Acceptor) → Moves d 0 (holds d fd) a (close fd a)
unfolding close
close-Moves d none a = record { more_got = omega arith; more_given = omega arith; same_idle = refl }
close-Moves d (some fd) a = record {
  more_got = gets-append d a.events (closed fd ∷ []);
  more_given = omega (arith, gives-append d a.events (closed fd ∷ []));
  same_idle = refl;
}

receive-Moves : (d : ℕ) (fd : Option ℕ) (a : Acceptor) → Moves d (holds d fd) 0 a (receive fd a)
unfolding receive
receive-Moves d none a = record {
  more_got = omega arith;
  more_given = omega arith;
  same_idle = refl;
}
receive-Moves d (some fd) a = record {
  more_got = omega (arith, gets-append d a.events (got fd ∷ []));
  more_given = gives-append d a.events (got fd ∷ []);
  same_idle = refl;
}

hand_on-Moves : (d fd : ℕ) (a : Acceptor) → Moves d 0 (is_fd d fd) a (hand_on fd a)
unfolding hand_on
hand_on-Moves d fd a =
    if-both (Moves d 0 (is_fd d fd) a) a.has_callback _ _
      (record {
        more_got = gets-append d a.events (handed fd ∷ []);
        more_given = omega (arith, gives-append d a.events (handed fd ∷ []));
        same_idle = refl;
      })
      (close-Moves d (some fd) a)

-- The events and the idle descriptor, for one number.
abbrev IsEven : ℕ → Acceptor → Type 0
IsEven d a = gets d a.events ≡ gives d a.events + holds d a.idle_fd

refuse-IsEven : (o : Outcome) (a : Acceptor) (d : ℕ) → IsEven d a → IsEven d (refuse o a)
unfolding refuse
refuse-IsEven o a d h =
    let idle_closed = close a.idle_fd a in
    let again = receive o.accepted_again idle_closed in
    let refused = close o.accepted_again again in
    omega (
      arith,
      close-Moves d a.idle_fd a,
      receive-Moves d o.accepted_again idle_closed,
      close-Moves d o.accepted_again again,
      receive-Moves d o.reopened refused,
    )

failed-IsEven : (o : Outcome) (a : Acceptor) (d : ℕ) → IsEven d a → IsEven d (accept_failed o a)
unfolding accept_failed
failed-IsEven o a d h = elim (Bool-cases o.is_emfile) [
  | inl full ↦ simp full (refuse-IsEven o a d h)
  | inr other ↦ simp other h
]

accepted-IsEven :
    (fd : Option ℕ) (o : Outcome) (a : Acceptor) (d : ℕ)
    → fd ≢ some 0
    → IsEven d a
    → IsEven d (accepted fd o (receive fd a))
unfolding accepted receive
accepted-IsEven none o a d positive h = failed-IsEven o a d h
accepted-IsEven (some zero) o a d positive h = absurd (positive refl)
accepted-IsEven (some (suc fd)) o a d positive h =
    let received = receive (some (suc fd)) a in
    let even : IsEven d (hand_on (suc fd) received) = omega (
      arith,
      receive-Moves d (some (suc fd)) a,
      hand_on-Moves d (suc fd) received,
      ap (holds d) (hand_on-Moves d (suc fd) received).same_idle,
    ) in
    rw (lt→ltb 0 (suc fd) (omega arith)) even

handle_read-Accounts :
    (o : Outcome) (a : Acceptor) → o.connfd ≢ some 0 → Accounts a → Accounts (handle_read o a)
unfolding handle_read
handle_read-Accounts o a positive h d = accepted-IsEven o.connfd o a d positive (h d)

-- Some rounds of `handleRead`.
abbrev pub handle_reads : List Outcome → Acceptor → Acceptor
handle_reads [] a = a
handle_reads (o ∷ os) a = handle_reads os (handle_read o a)

-- No `accept` returns the descriptor 0.
abbrev pub ArePositive : List Outcome → Type 0
ArePositive [] = Unit {0}
ArePositive (o ∷ os) = (o.connfd ≢ some 0) × ArePositive os

handle_reads-Accounts :
    (os : List Outcome) (a : Acceptor) → ArePositive os → Accounts a → Accounts (handle_reads os a)
handle_reads-Accounts [] a positive h = h
handle_reads-Accounts (o ∷ os) a (first, others) h =
    handle_reads-Accounts os (handle_read o a) others (handle_read-Accounts o a first h)

-- From the constructor to the destructor; `wired` is whether the callback is set.
abbrev pub lifetime : Bool → ℕ → Option ℕ → List Outcome → Result Acceptor
lifetime wired socket idle os = do
  a ← new_acceptor socket idle
  ok (destruct (handle_reads os (listen (if wired then set_new_conn_callback a else a))))

-- Every descriptor that a system call has returned in the life of an acceptor is closed once or handed on
-- once, however often it was returned, whether the callback is set or not, if no `accept` returns 0 and
-- the first idle descriptor is positive.
pub lifetime-Accounts :
    (wired : Bool) (socket idle d : ℕ) (os : List Outcome)
    → 0 < idle
    → ArePositive os
    → Returns (lifetime wired socket (some idle) os) (λ a. gets d a.events ≡ gives d a.events)
unfolding new_acceptor destruct listen set_new_conn_callback
lifetime-Accounts wired socket idle d os h positive = rw (lt→ltb 0 idle h) (
    let made : Acceptor = record {
      listening = false;
      idle_fd = some idle;
      accept_channel = new_channel socket;
      has_callback = false;
      events = got idle ∷ [];
    } in
    let open_acceptor = listen (if wired then set_new_conn_callback made else made) in
    let even : Accounts open_acceptor =
      if-both (λ (a : Acceptor). Accounts (listen a)) wired (set_new_conn_callback made) made
        (λ e. omega arith) (λ e. omega arith) in
    let last = handle_reads os open_acceptor in
    omega (
      arith,
      close-Moves d last.idle_fd (record last { accept_channel = disable_all last.accept_channel }),
      handle_reads-Accounts os open_acceptor positive even d,
    ))
