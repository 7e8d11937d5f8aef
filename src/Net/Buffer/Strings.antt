-- ===== src/Net/Buffer/Strings.antt =====
-- Reading the unread bytes as a string, reading up to a pointer, and shrinking the storage.
use ham.Base.Slices.{drop_all, take_all, take-take_le}
use ham.Base.Windows.{window}
use ham.Net.Buffer.Ops.{append-Holds, retrieve-Holds, Holds}
use ham.Net.Buffer.Contents.{
  ensure_writable_bytes-HasRoom, HasRoom, bytes_at-ok, readable_bytes-eq, length-contents, contents,
  IsValid,
}
use ham.Net.Buffer.{
  append, ensure_writable_bytes, retrieve, readable_bytes, max_size, retrieve_all_as_string,
  retrieve_as_string, Buffer, init, retrieve_until, shrink,
}
use ham.Base.{
  length-replicate, replicate, Returns-bind, Returns-mono, le→leb, ℕ, ◌+◌, ◌-◌, ◌≤◌, ◌≡◌, refl, sym,
  ◌∙◌, [], ◌++◌, arith, add_size, length, take, drop, Returns,
}

pub take-contents :
    (b : Buffer) (n : ℕ)
    → IsValid b
    → n ≤ length (contents b)
    → take n (contents b) ≡ window b.buffer b.read_index n
unfolding contents
take-contents b n v h =
    take-take_le n (b.write_index - b.read_index) (drop b.read_index b.buffer)
      (omega (arith, length-contents v))

-- `retrieveAsString` of no more than the unread bytes of a valid buffer returns and drops the first.
pub retrieve_as_string-Holds :
    (b : Buffer) (n : ℕ)
    → IsValid b
    → n ≤ length (contents b)
    → Returns
        (retrieve_as_string b n)
        (λ (res, rest). (res ≡ take n (contents b)) × Holds (drop n (contents b)) rest)
unfolding retrieve_as_string
retrieve_as_string-Holds b n v h =
    rw
      (
        le→leb n (readable_bytes b) (omega (arith, length-contents v, readable_bytes-eq v)),
        bytes_at-ok b b.read_index n (omega (arith, length-contents v)),
      )
      (Returns-bind (retrieve b n) _ (Holds (drop n (contents b))) _ (retrieve-Holds b n v h)
        λ rest held. (sym (take-contents b n v h), held))

-- `retrieveAllAsString` returns every unread byte.
pub retrieve_all_as_string-Holds :
    (b : Buffer)
    → IsValid b
    → Returns (retrieve_all_as_string b) (λ (res, rest). (res ≡ contents b) × Holds [] rest)
unfolding retrieve_all_as_string
retrieve_all_as_string-Holds b v =
    let all : readable_bytes b ≡ length (contents b) =
      readable_bytes-eq v ∙ sym (length-contents v) in
    rw all (
      Returns-mono (retrieve_as_string b (length (contents b))) _ _
        (retrieve_as_string-Holds b (length (contents b)) v (omega arith))
        λ r h. (
          h.0 ∙ take_all (length (contents b)) (contents b) (omega arith),
          rw (drop_all (length (contents b)) (contents b) (omega arith)) at h.1,
        ))

pub retrieve_until-Holds :
    (b : Buffer) (n : ℕ)
    → IsValid b
    → n ≤ length (contents b)
    → Returns (retrieve_until b (b.read_index + n)) (Holds (drop n (contents b)))
unfolding retrieve_until
retrieve_until-Holds b n v h =
    let e : b.read_index + n - b.read_index ≡ n = omega arith in
    rw
      (
        le→leb b.read_index (b.read_index + n) (omega arith),
        le→leb (b.read_index + n) b.write_index (omega (arith, length-contents v)),
        e,
      )
      (retrieve-Holds b n v h)

pub init-Holds : Returns init (λ b. Holds [] b × (b.read_index ≡ 8) × (b.write_index ≡ 8))
unfolding init contents
init-Holds =
    let len : length (replicate {A = ℕ} 1032 0) ≡ 1032 = length-replicate 1032 0 in
    rw len (record { valid = omega (arith, len); holds = refl }, refl, refl)

-- `shrink` keeps the unread bytes of a valid buffer, if they can be stored with `reserve` more.
pub shrink-Holds :
    (b : Buffer) (reserve : ℕ)
    → IsValid b
    → length (contents b) + reserve + 8 ≤ max_size
    → Returns (shrink b reserve) (Holds (contents b))
unfolding shrink contents
shrink-Holds b reserve v h =
    let n = b.write_index - b.read_index in
    let e : add_size n reserve ≡ n + reserve = omega (arith, length-contents v) in
    let unread : length (window b.buffer b.read_index n) ≡ n = length-contents v in
    rw (readable_bytes-eq v) (
      Returns-bind init _ _ (Holds (contents b)) init-Holds λ other (fresh, _, start). rw e (
        Returns-bind (ensure_writable_bytes other (n + reserve)) _ (HasRoom other (n + reserve)) _
          (ensure_writable_bytes-HasRoom other (n + reserve) fresh.valid
            (omega (arith, length-contents v)))
          λ roomy r. rw (bytes_at-ok b b.read_index n (omega arith)) (
            Returns-bind (append roomy (contents b)) _ (Holds (contents roomy ++ contents b)) _
              (append-Holds roomy (contents b) r.valid (omega (arith, r.fits, r.valid, unread)))
              λ filled f. rw (r.kept, fresh.holds) at f)))
