-- ===== src/Net/Connector/Ending.antt =====
-- ham/net/Connector.cc: the destructor.
use ham.Net.Connector.{
  cancel_timer, queued_stop, Watch, Connector, destruct, stop, stop_in_loop,
  remove_and_reset_channel, is_null, act, is_connecting,
}
use ham.Base.{
  if-both, Bool-cases, Returns-bind, Returns-eq, assert_failed, ◌≡◌, refl, ap, inl, inr, Bool,
  false, none, some, if◌then◌else◌, Result, ok, err, Returns,
}

-- `stop` takes no channel away.
stop_in_loop-channel :
    (c : Connector) (w : Watch)
    → c.connect_channel ≡ some w
    → Returns (stop_in_loop c) λ k. is_null k.connect_channel ≡ false
unfolding stop_in_loop act remove_and_reset_channel
stop_in_loop-channel c w at = elim (Bool-cases (is_connecting c.state)) [
  | inl busy ↦ simp (busy, at) refl
  | inr idle ↦ simp (idle, at) refl
]

pub stop-channel :
    (in_loop : Bool) (c : Connector) (w : Watch)
    → c.connect_channel ≡ some w
    → Returns (stop in_loop c) λ k. is_null k.connect_channel ≡ false
unfolding stop act
stop-channel in_loop c w at =
    let unwanted = record c { connect_flag = false } in
    let has : Connector → Type 0 = λ k. is_null k.connect_channel ≡ false in
    Returns-bind (if in_loop then stop_in_loop unwanted else ok (act queued_stop unwanted)) _ has
      has
      (if-both (λ (m : Result Connector). Returns m has) in_loop _ _
        (stop_in_loop-channel unwanted w at) (ap is_null at))
      λ k h. if-both has k.valid_timer (act cancel_timer k) k h h

-- A connector that still has a channel cannot be destroyed.
pub destruct-channel :
    (in_loop : Bool) (c : Connector) (w : Watch)
    → c.connect_channel ≡ some w
    → destruct in_loop c ≡ err assert_failed
unfolding destruct
destruct-channel in_loop c w at =
    let (k, e, h) = Returns-eq (stop in_loop c) _ (stop-channel in_loop c w at) in
    let n : is_null c.connect_channel ≡ false = ap is_null at in rw (n, e, h) refl

pub destruct-none :
    (in_loop : Bool) (c : Connector) → c.connect_channel ≡ none → destruct in_loop c ≡ ok c
unfolding destruct
destruct-none in_loop c at = simp at refl
