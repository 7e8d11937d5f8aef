-- ===== src/Net/Channel/Dispatch.antt =====
-- Which callbacks an event leads to, whatever other bits come with it.
use ham.Net.Channel.{
  on_write, on_read, on_error, Channel, on_close, Events, handle_event_with_guard, call_if,
  Callbacks, handle_event, Callback,
}
use ham.Base.{
  Bool-cases, ℕ, suc, ◌+◌, ◌≡◌, refl, inl, inr, Bool, true, false, not, ◌&&◌, ◌||◌, List, [], ◌∷◌,
  ◌++◌, arith, if◌then◌else◌,
}

same_callback : Callback → Callback → Bool
same_callback on_close on_close = true
same_callback on_error on_error = true
same_callback on_read on_read = true
same_callback on_write on_write = true
same_callback _ _ = false

-- How many times a callback is called.
unfoldable pub count : Callback → List Callback → ℕ
unfolding same_callback
count f [] = 0
count f (g ∷ fs) = let n = count f fs in if same_callback f g then suc n else n

-- What the bits ask for: a hang-up counts only when there is nothing left to read.
unfoldable pub wants : Callback → Events → Bool
wants on_close e = e.hangup && not e.input
wants on_error e = e.error
wants on_read e = e.input || (e.priority || e.read_hangup)
wants on_write e = e.output

unfoldable pub is_set : Callback → Callbacks → Bool
is_set on_close cb = cb.close_cb
is_set on_error cb = cb.error_cb
is_set on_read cb = cb.read_cb
is_set on_write cb = cb.write_cb

count-append : (f : Callback) (gs hs : List Callback) → count f (gs ++ hs) ≡ count f gs + count f hs
unfolding count
count-append f [] hs = ground arith
count-append f (g ∷ gs) hs = ground (arith, count-append f gs hs)

abbrev pub flag : Bool → ℕ
flag true = 1
flag false = 0

count-call_if :
    (f g : Callback) (wanted set : Bool)
    → count f (call_if wanted set g) ≡ (if same_callback f g then flag (wanted && set) else 0)
unfolding count
count-call_if f g false set = ground arith
count-call_if f g true false = ground arith
count-call_if f g true true = ground arith

count-guarded :
    (f : Callback) (cb : Callbacks) (c : Channel)
    → count f (handle_event_with_guard cb c) ≡ flag (wants f c.revent && is_set f cb)
unfolding handle_event_with_guard same_callback wants is_set
count-guarded f cb c =
    rw
      (
        count-append, count-append, count-append, count-call_if, count-call_if, count-call_if,
        count-call_if,
      )
      (grind arith)

and-true : (a b : Bool) → flag (a && b) ≡ flag (a && (b && true))
and-true true true = refl
and-true true false = refl
and-true false b = refl

and-false : (a b : Bool) → 0 ≡ flag (a && (b && false))
and-false true true = refl
and-false true false = refl
and-false false b = refl

-- However the bits of an event combine, each callback is called at most once: exactly when it is set,
-- the bits ask for it, and the channel is not tied to an object that is gone.
pub handle_event-count :
    (f : Callback) (cb : Callbacks) (alive : Bool) (c : Channel)
    → count f (handle_event cb alive c)
      ≡ flag (wants f c.revent && (is_set f cb && (not c.tied || alive)))
unfolding handle_event count
handle_event-count f cb alive c =
    let guarded = count-guarded f cb c in
    elim (Bool-cases c.tied) [
      | inr e ↦ rw (e, guarded) (and-true (wants f c.revent) (is_set f cb))
      | inl e ↦ elim (Bool-cases alive) [
        | inl e' ↦ rw (e, e', guarded) (and-true (wants f c.revent) (is_set f cb))
        | inr e' ↦ rw (e, e') (and-false (wants f c.revent) (is_set f cb))
      ]
    ]
