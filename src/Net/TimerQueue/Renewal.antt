-- ===== src/Net/TimerQueue/Renewal.antt =====
-- The loop of `reset`, over all timers that have been called.
use mathlib.Core.Bool.{false≢true}
use ham.Net.TimerQueue.Agreement.{insert_Lacks, Lacks, Distinct}
use ham.Net.Timer.{restart, Timer}
use ham.Net.TimerQueue.{
  is_in, insert_entry, TimerList, reset_timers, set_timer, TimerQueue, find_entry,
}
use ham.Net.TimerQueue.Reset.{
  renewed-IsResetting, is_renewed, renewed, IsResetting-tail, reset_timer_eq, Renewed, IsResetting,
}
use ham.Base.{
  Returns-both, Returns-mono, subst, Bool-cases, ℕ, ◌+◌, ◌<◌, ◌≡◌, sym, ap, ◌∙◌, inl, inr, Bool,
  true, false, not, ◌&&◌, [], ◌∷◌, arith, ◌==◌, if◌then◌else◌, Returns,
}

set_timer_ne :
    (timers : ℕ → Timer) (p r : ℕ) (x : Timer)
    → (r == p) ≡ false
    → set_timer timers p x r ≡ timers r
unfolding set_timer
set_timer_ne timers p r x e = ground arith

Renewed-other :
    (now p : ℕ) (q : TimerQueue) (ds es : TimerList)
    → Lacks p ds
    → Renewed now (renewed now p q) ds es
    → Renewed now q ds es
Renewed-other now p q [] es l h = tt
Renewed-other now p q ((t, r) ∷ ds) es l h =
    let e = set_timer_ne q.timers p r (restart now (q.timers p)) l.0 in
    let h' : Renewed now (renewed now p q) ((t, r) ∷ ds) es = h in
    (
      subst
          (λ (x : Timer).
            (x.repeat && not (is_in r q.canceling_timers)) ≡ true
            → find_entry (now + x.interval, r) es ≡ true)
          e h'.0,
      subst (λ (x : Timer). (x.repeat && not (is_in r q.canceling_timers)) ≡ false → Lacks r es) e
          h'.1,
      Renewed-other now p q ds es l.1 h'.2,
    )

find-insert_self : (t p : ℕ) (es : TimerList) → find_entry (t, p) (insert_entry (t, p) es).0 ≡ true
unfolding find_entry insert_entry
find-insert_self t p [] = ground arith
find-insert_self t p ((s, q) ∷ es) = ground (arith, find-insert_self t p es)

find-insert :
    (e : ℕ × ℕ) (t p : ℕ) (es : TimerList)
    → find_entry e es ≡ true
    → find_entry e (insert_entry (t, p) es).0 ≡ true
unfolding find_entry insert_entry
find-insert e t p [] h = absurd (false≢true h)
find-insert e t p ((s, q) ∷ es) h = ground (arith, find-insert e t p es)

module _ (now : ℕ) (pos : 0 < now) where
  reset_timers_eq :
      (t p : ℕ) (ds : TimerList) (q : TimerQueue) (b : Bool)
      → Lacks p q.timer_list
      → is_renewed p q ≡ b
      → reset_timers now ((t, p) ∷ ds) q ≡ reset_timers now ds (if b then renewed now p q else q)
  unfolding reset_timers
  reset_timers_eq t p ds q b l e =
      rw (reset_timer_eq now p q l)
        (ap (λ c. reset_timers now ds (if c then renewed now p q else q)) e)

  -- What no entry of another timer takes away is still there after the loop.
  reset_timers_keeps :
      (P : TimerList → Type 0) (r : ℕ)
      → ((t p : ℕ) (es : TimerList) → (p == r) ≡ false → P es → P (insert_entry (t, p) es).0)
      → (ds : TimerList) (q : TimerQueue) → Lacks r ds
      → Distinct ds
      → IsResetting ds q
      → P q.timer_list
      → Returns (reset_timers now ds q) λ q'. P q'.timer_list
  unfolding reset_timers
  reset_timers_keeps P r keep [] q l d h k = k
  reset_timers_keeps P r keep ((t, p) ∷ ds) q l d h k = elim (Bool-cases (is_renewed p q)) [
    | inl e ↦ rw (reset_timers_eq t p ds q true h.apart.0 e) (
        reset_timers_keeps P r keep ds (renewed now p q) l.1 d.1
          (renewed-IsResetting now p ds q pos d.0 h.apart.0 e (IsResetting-tail t p ds q h))
          (keep (now + (q.timers p).interval) p q.timer_list l.0 k))
    | inr e ↦
        rw (reset_timers_eq t p ds q false h.apart.0 e)
          (reset_timers_keeps P r keep ds q l.1 d.1 (IsResetting-tail t p ds q h) k)
  ]

  pub reset_timers-Renewed :
      (ds : TimerList) (q : TimerQueue)
      → Distinct ds
      → IsResetting ds q
      → Returns (reset_timers now ds q) λ q'. IsResetting [] q' × Renewed now q ds q'.timer_list
  unfolding reset_timers
  reset_timers-Renewed [] q d h = (h, tt)
  reset_timers-Renewed ((t, p) ∷ ds) q d h = elim (Bool-cases (is_renewed p q)) [
    | inl e ↦
        let h' : IsResetting ds (renewed now p q) =
          renewed-IsResetting now p ds q pos d.0 h.apart.0 e (IsResetting-tail t p ds q h) in
        let back = λ (es : TimerList). find_entry (now + (q.timers p).interval, p) es ≡ true in
        let m = reset_timers now ds (renewed now p q) in
        rw (reset_timers_eq t p ds q true h.apart.0 e) (
          Returns-mono m _ _
            (Returns-both m _ _
              (reset_timers_keeps back p
                (λ u r es other. find-insert (now + (q.timers p).interval, p) u r es) ds
                (renewed now p q) d.0 d.1 h'
                (find-insert_self (now + (q.timers p).interval) p q.timer_list))
              (reset_timers-Renewed ds (renewed now p q) d.1 h'))
            λ q' (there, rest). (
              rest.0,
              (
                λ _. there,
                λ e'. absurd (false≢true (sym e' ∙ e)),
                Renewed-other now p q ds q'.timer_list d.0 rest.1,
              ),
            ))
    | inr e ↦
        let h' = IsResetting-tail t p ds q h in
        let m = reset_timers now ds q in
        rw (reset_timers_eq t p ds q false h.apart.0 e) (
          Returns-mono m _ _
            (Returns-both m _ _
              (reset_timers_keeps (Lacks p) p (λ u r es other. insert_Lacks p u r es other) ds q d.0
                d.1 h' h.apart.0)
              (reset_timers-Renewed ds q d.1 h'))
            λ q' (gone, rest).
              (rest.0, (λ e'. absurd (false≢true (sym e ∙ e')), λ _. gone, rest.1)))
  ]
