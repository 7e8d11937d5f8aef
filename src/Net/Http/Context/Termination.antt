-- ===== src/Net/Http/Context/Termination.antt =====
-- `parseRequest` ends from every state but the last, and never from that one.
use ham.Net.Http.Context.Lines.{line_fits, drop_line, read_line, find_line}
use ham.Net.Buffer.Ops.{Holds}
use ham.Net.Buffer.Search.{find_crlf-eq, search_crlf}
use ham.Net.Buffer.Contents.{contents, IsValid}
use ham.Net.Http.Context.{
  Parsed, expect_body, expect_headers, expect_request_line, retrieve_all_as_string,
  parse_request_line, retrieve_until, parse_loop, parse_request, got_all, Buffer, HttpContext,
  continues, ParseState, take_header, round, finished, Round,
}
use ham.Base.{
  length-drop, Bool-cases, Option-cases, ℕ, zero, suc, ◌+◌, ◌≤◌, ◌<◌, ◌≡◌, refl, ap, ◌≢◌, inl, inr,
  Bool, true, none, some, List, arith, length, take, Result, ok, err, ◌>>=◌, Returns,
}

-- `m` aborts, or what it returns satisfies `P`.
abbrev May {ℓ} : {A : Type ℓ} → Result A → (A → Type 0) → Type 0
May (ok a) P = P a
May (err e) P = Unit

May-bind {ℓ κ} :
    {T : Type ℓ} {U : Type κ} (m : Result T) (next : T → Result U) (Q : U → Type 0)
    → ((t : T) → m ≡ ok t → May (next t) Q)
    → May (m >>= next) Q
May-bind (ok t) next Q k = k t refl
May-bind (err fault) next Q k = tt

May_of_Returns {ℓ} :
    {A : Type ℓ} (m : Result A) (P : A → Type 0) {a : A} → Returns m P → m ≡ ok a → P a
May_of_Returns m P h e = rw e at h

-- The next round has fewer unread bytes and is not in the last state.
abbrev Progress : ℕ → Round → Type 0
Progress n (finished r c b) = Unit
Progress n (continues r c b) = IsValid b × (c.parse_state ≢ got_all) × (length (contents b) < n)

take_header_state :
    (c : HttpContext) (line : List ℕ)
    → c.parse_state ≢ got_all
    → (take_header c line).parse_state ≢ got_all
unfolding take_header
take_header_state c line h = ground arith

module _ (b : Buffer) (i : ℕ) (v : IsValid b) (found : search_crlf (contents b) ≡ some i) where
  line_dropped :
      (rest : Buffer)
      → retrieve_until b (b.read_index + i + 2) ≡ ok rest
      → IsValid rest × (length (contents rest) < length (contents b))
  line_dropped rest e =
      let here : Holds (contents b) b = record { valid = v; holds = refl } in
      let left =
        May_of_Returns (retrieve_until b (b.read_index + i + 2)) _
          (drop_line (contents b) i b here found) e in
      (
        left.valid,
        omega (
          arith,
          ap length left.holds,
          length-drop (i + 2) (contents b),
          line_fits (contents b) i b here found,
        ),
      )

round-Progress :
    (s : ParseState) (c : HttpContext) (b : Buffer) (time : ℕ) (line_ok : Bool)
    → IsValid b
    → s ≢ got_all
    → c.parse_state ≡ s
    → May (round s c b time line_ok) (Progress (length (contents b)))
unfolding round
round-Progress expect_request_line c b time line_ok v h e =
    elim (Option-cases (search_crlf (contents b))) [
      | inl missing ↦ rw (find_crlf-eq v, missing) tt
      | inr (i, found) ↦
          let here : Holds (contents b) b = record { valid = v; holds = refl } in
          rw (find_line (contents b) i b here found, read_line (contents b) i b here found)
            (May-bind (parse_request_line c.request (take i (contents b))) _ _ λ (done, request) _.
              elim (Bool-cases done) [
                | inl good ↦ rw good (
                    May-bind (retrieve_until b (b.read_index + i + 2)) _ _ λ rest e'.
                      (let (w, less) = line_dropped b i v found rest e' in (w, (λ q. cc), less)))
                | inr bad ↦ rw bad tt
              ])
    ]
round-Progress expect_headers c b time line_ok v h e =
    elim (Option-cases (search_crlf (contents b))) [
      | inl missing ↦ rw (find_crlf-eq v, missing) tt
      | inr (i, found) ↦
          let here : Holds (contents b) b = record { valid = v; holds = refl } in
          rw (find_line (contents b) i b here found, read_line (contents b) i b here found)
            (May-bind (retrieve_until b (b.read_index + i + 2)) _ _ λ rest e'.
              (let (w, less) = line_dropped b i v found rest e' in
                (w, take_header_state c (take i (contents b)) (rw e h), less)))
    ]
round-Progress expect_body c b time line_ok v h e =
    May-bind (retrieve_all_as_string b) _ _ λ (text, rest) _. tt
round-Progress got_all c b time line_ok v h e = absurd (h refl)

after_round :
    (fuel n time : ℕ)
    → ((c : HttpContext) (b : Buffer) (r : Bool)
        → IsValid b
        → c.parse_state ≢ got_all
        → length (contents b) < fuel
        → parse_loop fuel c b time r ≢ ok none)
    → n ≤ fuel
    → (m : Result Round) → May m (Progress n)
    → ◌>>=◌ {U = Parsed} m (λ s. elim s [
      | finished r c' b' ↦ ok (some (r, c', b'))
      | continues r c' b' ↦ parse_loop fuel c' b' time r
    ])
      ≢ ok none
after_round fuel n time again k (err e) p q = cc
after_round fuel n time again k (ok (finished r c' b')) p q = cc
after_round fuel n time again k (ok (continues r c' b')) (v, h, less) q =
    again c' b' r v h (omega arith) q

-- From any other state the loop stops within as many rounds as there are unread bytes, and one.
parse_loop-stops :
    (fuel : ℕ) (c : HttpContext) (b : Buffer) (time : ℕ) (line_ok : Bool)
    → IsValid b
    → c.parse_state ≢ got_all
    → length (contents b) < fuel
    → parse_loop fuel c b time line_ok ≢ ok none
unfolding parse_loop
parse_loop-stops zero c b time line_ok v h n = absurd (omega arith)
parse_loop-stops (suc fuel) c b time line_ok v h n =
    after_round fuel (length (contents b)) time (λ c' b' r. parse_loop-stops fuel c' b' time r)
      (omega arith) (round c.parse_state c b time line_ok)
      (round-Progress c.parse_state c b time line_ok v h refl)

-- From a state other than the last, `parseRequest` on a valid buffer ends, with a result or a fault:
-- more fuel than there are unread bytes never runs out.
pub parse_request-stops :
    (fuel : ℕ) (c : HttpContext) (b : Buffer) (time : ℕ)
    → IsValid b
    → c.parse_state ≢ got_all
    → length (contents b) < fuel
    → parse_request fuel c b time ≢ ok none
unfolding parse_request
parse_request-stops fuel c b time = parse_loop-stops fuel c b time true

-- In the last state the loop has no exit: whatever the fuel, it runs out.
pub parse_request-got_all :
    (fuel : ℕ) (c : HttpContext) (b : Buffer) (time : ℕ)
    → c.parse_state ≡ got_all
    → parse_request fuel c b time ≡ ok none
unfolding parse_request parse_loop round
parse_request-got_all zero c b time h = refl
parse_request-got_all (suc fuel) c b time h =
    rw (h, parse_loop) (parse_request-got_all fuel (record c { parse_state = got_all }) b time refl)
