-- ===== src/Net/Buffer/Sequence/Matching.antt =====
-- Each call, and each sequence of calls, does to a buffer what it does to the list of its bytes.
use ham.Net.Buffer.Sequence.{
  Call, appends, retrieves, reads, reads_all, call_buffer, call_all, call_bytes, calls_bytes,
  next_calls, appended, all_appended, IsReady, Matches,
}
use mathlib.Core.Path.{ap₂}
use ham.Base.Slices.{drop_all, take_all}
use Prim.Native.Nat.{max}
use ham.Net.Buffer.Ops.{Holds, append-Wrote, retrieve-Holds}
use ham.Net.Buffer.Strings.{retrieve_as_string-Holds}
use ham.Net.Buffer.Contents.{bytes_at-ok, contents, IsValid, length-contents, readable_bytes-eq}
use ham.Net.Buffer.{
  Buffer, append, retrieve, retrieve_as_string, retrieve_all_as_string, readable_bytes,
}
use ham.Base.{
  Returns-both, le→leb, Bool-cases, Returns-mono, if-both, subst, leb→le, Returns-assert,
  Returns-bind, assert_failed, ℕ, ◌+◌, ◌≤◌, ◌≡◌, refl, sym, ap, ◌∙◌, inl, inr, true, false, Option,
  none, some, List, [], ◌∷◌, ◌++◌, arith, ltb, leb, length, take, drop, Result, ok, err, ◌>>=◌,
  Returns,
}

retrieve-write :
    (b : Buffer) (n : ℕ)
    → leb n (readable_bytes b) ≡ true
    → Returns (retrieve b n) λ b'. b'.write_index ≤ max b.write_index 8
unfolding retrieve
retrieve-write b n e = Returns-assert (leb n (readable_bytes b)) _ _ e (
    if-both (λ (b' : Buffer). b'.write_index ≤ max b.write_index 8) (ltb n (readable_bytes b)) _ _
      (omega arith) (omega arith))

retrieve-short :
    (b : Buffer) (n : ℕ) → leb n (readable_bytes b) ≡ false → retrieve b n ≡ err assert_failed
unfolding retrieve
retrieve-short b n e = rw e refl

read-short :
    (b : Buffer) (n : ℕ)
    → leb n (readable_bytes b) ≡ false
    → retrieve_as_string b n ≡ err assert_failed
unfolding retrieve_as_string
read-short b n e = rw e refl

read-write :
    (b : Buffer) (n : ℕ)
    → IsValid b
    → leb n (readable_bytes b) ≡ true
    → Returns (retrieve_as_string b n) λ r. r.1.write_index ≤ max b.write_index 8
unfolding retrieve_as_string
read-write b n v e =
    let fits : b.read_index + n ≤ length b.buffer =
      omega (arith, v, leb→le n (readable_bytes b) e, readable_bytes-eq v) in
    rw (e, bytes_at-ok b b.read_index n fits)
      (Returns-bind (retrieve b n) _ _ _ (retrieve-write b n e) λ b' w. w)

-- The unread bytes are as many as `readableBytes`.
readable_length : (b : Buffer) (xs : List ℕ) → Holds xs b → readable_bytes b ≡ length xs
readable_length b xs h =
    readable_bytes-eq h.valid ∙ (sym (length-contents h.valid) ∙ ap length h.holds)

-- A valid buffer whose write index has not passed the former one.
ready :
    (k : ℕ) (xs ys : List ℕ) (b b' : Buffer)
    → IsReady k xs b
    → Holds ys b'
    → b'.write_index ≤ max b.write_index 8
    → IsReady k ys b'
ready k xs ys b b' r h w = record { state = h; room = omega (arith, r.room) }

less_room : (j k : ℕ) (xs : List ℕ) (b : Buffer) → k ≤ j → IsReady j xs b → IsReady k xs b
less_room j k xs b h r = record { state = r.state; room = omega (arith, r.room) }

taken-Matches :
    (k n : ℕ) (xs : List ℕ) (b : Buffer)
    → IsReady k xs b
    → leb n (length xs) ≡ true
    → Returns (retrieve b n) (IsReady k (drop n xs))
taken-Matches k n xs b r e =
    let all : length (contents b) ≡ length xs = ap length r.state.holds in
    let some_more : leb n (readable_bytes b) ≡ true = rw (readable_length b xs r.state) e in
    Returns-mono (retrieve b n) _ _
      (Returns-both (retrieve b n) _ _
        (retrieve-Holds b n r.state.valid (omega (arith, all, leb→le n (length xs) e)))
        (retrieve-write b n some_more))
      λ b' (h, w).
        ready k xs (drop n xs) b b' r
          (subst (λ (ys : List ℕ). Holds (drop n ys) b') r.state.holds h) w

read-Matches :
    (k n : ℕ) (xs : List ℕ) (b : Buffer)
    → IsReady k xs b
    → leb n (length xs) ≡ true
    → Returns (retrieve_as_string b n) λ q. (q.0 ≡ take n xs) × IsReady k (drop n xs) q.1
read-Matches k n xs b r e =
    let all : length (contents b) ≡ length xs = ap length r.state.holds in
    let some_more : leb n (readable_bytes b) ≡ true = rw (readable_length b xs r.state) e in
    Returns-mono (retrieve_as_string b n) _ _
      (Returns-both (retrieve_as_string b n) _ _
        (retrieve_as_string-Holds b n r.state.valid (omega (arith, all, leb→le n (length xs) e)))
        (read-write b n r.state.valid some_more))
      λ q (h, w). (
        h.0 ∙ ap (take n) r.state.holds,
        ready k xs (drop n xs) b q.1 r
            (subst (λ (ys : List ℕ). Holds (drop n ys) q.1) r.state.holds h.1) w,
      )

all_read :
    (k : ℕ) (xs : List ℕ) (b : Buffer)
    → IsReady k xs b
    → Returns (retrieve_all_as_string b) λ q. (q.0 ≡ xs) × IsReady k [] q.1
unfolding retrieve_all_as_string
all_read k xs b r =
    let n = length xs in
    rw (readable_length b xs r.state) (
      Returns-mono (retrieve_as_string b n) _ _ (read-Matches k n xs b r (le→leb n n (omega arith)))
        λ q h. (
          h.0 ∙ take_all n xs (omega arith),
          subst (λ (ys : List ℕ). IsReady k ys q.1) (drop_all n xs (omega arith)) h.1,
        ))

call-Matches :
    (c : Call) (k : ℕ) (xs : List ℕ) (b : Buffer)
    → IsReady (appended c + k) xs b
    → Matches k (call_bytes c xs) (call_buffer c b)
unfolding call_buffer
call-Matches (appends d) k xs b r =
    Returns-bind (append b d) _ _ _ (append-Wrote b d r.state.valid (omega (arith, r.room))) λ b' w.
      (
        refl,
        record {
          state = subst (λ (ys : List ℕ). Holds (ys ++ d) b') r.state.holds w.state;
          room = omega (arith, r.room, w.extent);
        },
      )
call-Matches (retrieves n) k xs b r = elim (Bool-cases (leb n (length xs))) [
  | inl e ↦ rw e (
      Returns-bind (retrieve b n) _ _ _
        (taken-Matches k n xs b (less_room _ k xs b (omega arith) r) e) λ b' h. (refl, h))
  | inr e ↦ rw (e, retrieve-short b n (rw (readable_length b xs r.state) e)) refl
]
call-Matches (reads n) k xs b r = elim (Bool-cases (leb n (length xs))) [
  | inl e ↦ rw e (read-Matches k n xs b (less_room _ k xs b (omega arith) r) e)
  | inr e ↦ rw e (read-short b n (rw (readable_length b xs r.state) e))
]
call-Matches reads_all k xs b r = all_read k xs b (less_room _ k xs b (omega arith) r)

-- Two calls, one after the other.
both-Match :
    (k : ℕ) (o : Option (List ℕ × List ℕ)) (m : Result (List ℕ × Buffer)) (cs : List Call)
    → Matches (all_appended cs + k) o m
    → ((ys : List ℕ) (b : Buffer)
        → IsReady (all_appended cs + k) ys b
        → Matches k (calls_bytes cs ys) (call_all cs b))
    → Matches k
        (next_calls o (calls_bytes cs))
        (m >>= λ (text, b'). call_all cs b' >>= λ (texts, b''). ok (text ∷ texts, b''))
both-Match k none m cs h rest = rw h refl
both-Match k (some (t, ys)) (err e) cs h rest = absurd h
both-Match k (some (t, ys)) (ok (t', b)) cs h rest =
    then_rest (calls_bytes cs ys) (call_all cs b) (rest ys b h.1)
  where
    then_rest :
        (o : Option (List (List ℕ) × List ℕ)) (n : Result (List (List ℕ) × Buffer))
        → Matches k o n
        → Matches k
            (next_calls (some (t, ys)) (λ _. o))
            (n >>= λ (texts, b''). ok (t' ∷ texts, b''))
    then_rest none n q = rw q refl
    then_rest (some (ts, zs)) (err e) q = absurd q
    then_rest (some (ts, zs)) (ok (ts', b'')) q =
        (ap₂ (λ (x : List ℕ) (xs : List (List ℕ)). x ∷ xs) h.0 q.0, q.1)

-- However `append`, `retrieve`, `retrieveAsString` and `retrieveAllAsString` are called, a buffer does
-- what a plain list of its unread bytes does: the same texts come out and the same bytes stay, however
-- the storage was moved, grown or reset in between; and a call that asks for more bytes than there are
-- fails its assertion, as the list has no answer. All that is appended must fit the largest vector behind
-- the write index.
pub call_all-Matches :
    (cs : List Call) (k : ℕ) (xs : List ℕ) (b : Buffer)
    → IsReady (all_appended cs + k) xs b
    → Matches k (calls_bytes cs xs) (call_all cs b)
unfolding calls_bytes call_all
call_all-Matches [] k xs b r = (refl, less_room _ k xs b (omega arith) r)
call_all-Matches (c ∷ cs) k xs b r =
    both-Match k (call_bytes c xs) (call_buffer c b) cs
      (call-Matches c (all_appended cs + k) xs b (less_room _ _ xs b (omega arith) r))
      (λ ys b' r'. call_all-Matches cs k ys b' r')
