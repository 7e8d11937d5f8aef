-- ===== src/Net/TimerQueue/Entries.antt =====
-- The entries of a timer queue stay in their order.
use mathlib.Core.Bool.{false≢true}
use ham.Net.TimerQueue.{
  is_earliest, TimerQueue, erase_entry, cancel_timer_in_loop, find_entry, same_entry, before,
  TimerList, insert_entry, insert,
}
use ham.Base.{
  subst, ◌<◌, ◌≤◌, ◌⊎◌, ◌≢◌, ltb, ==-self, if-both, Bool-cases, ℕ, ◌≡◌, refl, sym, ap, ◌∙◌, inl,
  inr, Bool, true, false, ◌||◌, [], ◌∷◌, arith, Returns,
}

abbrev pub is_above : ℕ × ℕ → TimerList → Bool
is_above e [] = true
is_above e (x ∷ xs) = before e x

-- Every entry stands strictly above the one before it.
abbrev pub IsSorted : TimerList → Type 0
IsSorted [] = Unit
IsSorted (x ∷ xs) = (is_above x xs ≡ true) × IsSorted xs

is_above-insert_entry :
    (x e : ℕ × ℕ) (es : TimerList)
    → before x e ≡ true
    → is_above x es ≡ true
    → is_above x (insert_entry e es).0 ≡ true
unfolding insert_entry
is_above-insert_entry x e [] h h' = h
is_above-insert_entry x e (y ∷ ys) h h' =
    if-both (λ (r : TimerList × Bool). is_above x r.0 ≡ true) (before y e) _ _ h'
      (if-both (λ (r : TimerList × Bool). is_above x r.0 ≡ true) (before e y) _ _ h h')

pub insert_entry-IsSorted :
    (e : ℕ × ℕ) (es : TimerList) → IsSorted es → IsSorted (insert_entry e es).0
unfolding insert_entry
insert_entry-IsSorted e [] s = (refl, tt)
insert_entry-IsSorted e (x ∷ xs) s = elim (Bool-cases (before x e)) [
  | inl h ↦ rw h (is_above-insert_entry x e xs h s.0, insert_entry-IsSorted e xs s.1)
  | inr h ↦ elim (Bool-cases (before e x)) [ inl h' ↦ rw (h, h') (h', s) | inr h' ↦ rw (h, h') s ]
]

same_self : (e : ℕ × ℕ) → same_entry e e ≡ true
same_self (t, p) = rw (==-self t, ==-self p) refl

total : (x e : ℕ × ℕ) → before x e ≡ false → before e x ≡ false → same_entry x e ≡ true
total (s, p) (t, q) h h' = grind arith

or_left : (a b : Bool) → (a || b) ≡ false → a ≡ false
or_left true b e = e
or_left false b e = refl

or_right : (a b : Bool) → (a || b) ≡ false → b ≡ false
or_right true b e = absurd (false≢true (sym e))
or_right false b e = e

-- What `std::set::insert` does with an entry that is not there.
pub record Inserted (e : ℕ × ℕ) (es : TimerList) (r : TimerList × Bool) : Type 0 where
  pub is_new : r.1 ≡ true
  pub found : find_entry e r.0 ≡ true
  pub erased : erase_entry e r.0 ≡ es

pub insert_entry-Inserted :
    (e : ℕ × ℕ) (es : TimerList) → find_entry e es ≡ false → Inserted e es (insert_entry e es)
unfolding insert_entry find_entry erase_entry
insert_entry-Inserted e [] h = record {
  is_new = refl;
  found = rw (same_self e) refl;
  erased = rw (same_self e) refl;
}
insert_entry-Inserted e (x ∷ xs) h =
    let other = or_left (same_entry x e) (find_entry e xs) h in
    let later = insert_entry-Inserted e xs (or_right (same_entry x e) (find_entry e xs) h) in
    elim (Bool-cases (before x e)) [
      | inl k ↦ rw k (record {
        is_new = later.is_new;
        found = rw (other, later.found) refl;
        erased = rw other (ap (λ ys. x ∷ ys) later.erased);
      })
      | inr k ↦ elim (Bool-cases (before e x)) [
        | inl k' ↦
            rw (k, k')
              (record {
                is_new = refl;
                found = rw (same_self e) refl;
                erased = rw (same_self e) refl;
              })
        | inr k' ↦ absurd (false≢true (sym other ∙ total x e k k'))
      ]
    ]

abbrev pub first_time : TimerList → ℕ
first_time [] = 0
first_time ((t, p) ∷ es) = t

-- The time of the first entry has changed to one before all others, or else has not.
abbrev pub Leads : Bool → ℕ × ℕ → TimerList → TimerList → Type 0
Leads true e es new_list = (new_list ≡ e ∷ es) × ((es ≡ []) ⊎ (e.0 < first_time es))
Leads false e es new_list =
    (first_time new_list ≡ first_time es) × (es ≢ []) × (first_time es ≤ e.0)

before_first :
    (t p s q : ℕ) → ltb t s ≡ true → (before (s, q) (t, p) ≡ false) × (before (t, p) (s, q) ≡ true)
before_first t p s q e = ground arith

same_first :
    (t p s q : ℕ)
    → ltb t s ≡ false
    → before (s, q) (t, p) ≡ false
    → before (t, p) (s, q) ≡ true
    → t ≡ s
same_first t p s q e k k' = ground arith

first_stays :
    (t p s q : ℕ) (es : TimerList)
    → ltb t s ≡ false
    → first_time (insert_entry (t, p) ((s, q) ∷ es)).0 ≡ s
unfolding insert_entry
first_stays t p s q es late = elim (Bool-cases (before (s, q) (t, p))) [
  | inl k ↦ rw k refl
  | inr k ↦ elim (Bool-cases (before (t, p) (s, q))) [
    | inl k' ↦ rw (k, k') (same_first t p s q late k k')
    | inr k' ↦ rw (k, k') refl
  ]
]

goes_first :
    (t p s q : ℕ) (es : TimerList)
    → ltb t s ≡ true
    → (insert_entry (t, p) ((s, q) ∷ es)).0 ≡ (t, p) ∷ (s, q) ∷ es
unfolding insert_entry
goes_first t p s q es early = let above = before_first t p s q early in rw (above.0, above.1) refl

before_all : (t s : ℕ) → ltb t s ≡ true → t < s
before_all t s e = ground arith

not_empty : (x : ℕ × ℕ) (xs : TimerList) → (x ∷ xs) ≢ []
not_empty x xs e = false≢true (sym (ap (λ ys. elim ys [ [] ↦ false | _ ∷ _ ↦ true ]) e))

not_before : (t s : ℕ) → ltb t s ≡ false → s ≤ t
not_before t s e = ground arith

insert_entry-Leads :
    (e : ℕ × ℕ) (es : TimerList) → Leads (is_earliest e.0 es) e es (insert_entry e es).0
unfolding insert_entry
insert_entry-Leads e [] = (refl, inl refl)
insert_entry-Leads (t, p) ((s, q) ∷ es) =
    let leads = λ (b : Bool). Leads b (t, p) ((s, q) ∷ es) (insert_entry (t, p) ((s, q) ∷ es)).0 in
    elim (Bool-cases (ltb t s)) [
      | inl k ↦ subst leads (sym k) (goes_first t p s q es k, inr (before_all t s k))
      | inr k ↦
          subst leads (sym k) (first_stays t p s q es k, not_empty (s, q) es, not_before t s k)
    ]

-- A timer that is not in the queue can be added: the entries stay in order, and cancelling the timer
-- gives them back. `earliestChanged_` is set exactly when the timer comes first, before all others, so
-- that the alarm must ring earlier; otherwise the time of the first entry is what it was, and not after
-- the timer.
pub cancel_timer_in_loop-insert :
    (timer : ℕ) (q : TimerQueue)
    → IsSorted q.timer_list
    → find_entry ((q.timers timer).expiration, timer) q.timer_list ≡ false
    → Returns (insert timer q) λ q'.
      IsSorted q'.timer_list
      × Leads q'.earliest_changed ((q.timers timer).expiration, timer) q.timer_list q'.timer_list
      × ((cancel_timer_in_loop timer q').timer_list ≡ q.timer_list)
unfolding insert cancel_timer_in_loop
cancel_timer_in_loop-insert timer q s fresh =
    let e : ℕ × ℕ = ((q.timers timer).expiration, timer) in
    let r = insert_entry-Inserted e q.timer_list fresh in
    rw r.is_new (
      insert_entry-IsSorted e q.timer_list s,
      insert_entry-Leads e q.timer_list,
      rw r.found r.erased,
    )
