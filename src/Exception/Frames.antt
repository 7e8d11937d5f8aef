-- ===== src/Exception/Frames.antt =====
-- ham/base/Exception.cc: the frames of a stack trace, and the text that comes of them.
use ham.Exception.{Marks, is_null, stops, no_marks, scan, set_at, c_string, cut_frame}
use ham.Base.{
  not, ◌&&◌, Bool, true, Bool, none, ℕ, suc, ◌+◌, ◌≡◌, refl, ap, ◌∙◌, ◌≢◌, false, some, List, [],
  ◌∷◌, ◌++◌, arith, ◌==◌, length, drop, ok,
}

-- No zero, no `(` and no `+`.
abbrev IsPlain : List ℕ → Type 0
IsPlain [] = Unit {0}
IsPlain (c ∷ cs) = (c ≢ 0) × (c ≢ 40) × (c ≢ 43) × IsPlain cs

-- No `)`, `(` or `+`.
abbrev IsOffset : List ℕ → Type 0
IsOffset [] = Unit {0}
IsOffset (c ∷ cs) = (c ≢ 40) × (c ≢ 41) × (c ≢ 43) × IsOffset cs

-- A frame as `backtrace_symbols` writes it: the file, the mangled name, the offset, and the address.
pub record Frame : Type 0 where
  pub file : List ℕ
  pub name : List ℕ
  pub offset : List ℕ
  pub address : List ℕ

abbrev pub frame_text : Frame → List ℕ
frame_text f = f.file ++ (40 ∷ (f.name ++ (43 ∷ (f.offset ++ (41 ∷ f.address)))))

pub record IsFrame (f : Frame) : Type 0 where
  pub file_plain : IsPlain f.file
  pub name_plain : IsPlain f.name
  pub offset_plain : IsOffset f.offset

and-false : (a : Bool) → (a && false) ≡ false
and-false true = refl
and-false false = refl

differ : (a b : ℕ) → (a ≢ b) → (a == b) ≡ false
differ a b h = ground arith

-- Before a `+`, a `)` does not end the loop.
scan-plain :
    (i : ℕ) (xs ys : List ℕ) (m : Marks)
    → IsPlain xs
    → m.begin_offset ≡ none
    → scan i (xs ++ ys) m ≡ scan (i + length xs) ys m
unfolding scan
scan-plain i [] ys m h e = ap (λ j. scan j ys m) (omega arith)
scan-plain i (c ∷ cs) ys m (n0, n40, n43, h) e =
    let goes_on : stops c m ≡ false =
      ap (λ o. (c == 41) && not (is_null o)) e ∙ and-false (c == 41) in
    rw (differ c 40 n40, differ c 43 n43, goes_on)
      (scan-plain (suc i) cs ys m h e ∙ ap (λ j. scan j ys m) (omega arith))

scan-offset :
    (i : ℕ) (xs ys : List ℕ) (m : Marks)
    → IsOffset xs
    → scan i (xs ++ ys) m ≡ scan (i + length xs) ys m
unfolding scan
scan-offset i [] ys m h = ap (λ j. scan j ys m) (omega arith)
scan-offset i (c ∷ cs) ys m (n40, n41, n43, h) =
    rw (differ c 40 n40, differ c 41 n41, differ c 43 n43)
      (scan-offset (suc i) cs ys m h ∙ ap (λ j. scan j ys m) (omega arith))

set_at-past : (xs ys : List ℕ) (n d : ℕ) → set_at (length xs + n) d (xs ++ ys) ≡ xs ++ set_at n d ys
unfolding set_at
set_at-past [] ys n d = ap (λ i. set_at i d ys) (omega arith)
set_at-past (x ∷ xs) ys n d =
    let past : length (x ∷ xs) + n ≡ suc (length xs + n) = omega arith in
    ap (λ i. set_at i d (x ∷ (xs ++ ys))) past ∙ ap (λ zs. x ∷ zs) (set_at-past xs ys n d)

set_at-append : (xs ys : List ℕ) (c d : ℕ) → set_at (length xs) d (xs ++ (c ∷ ys)) ≡ xs ++ (d ∷ ys)
unfolding set_at
set_at-append xs ys c d =
    ap (λ i. set_at i d (xs ++ (c ∷ ys))) (omega arith) ∙ set_at-past xs (c ∷ ys) 0 d

c_string-append : (xs ys : List ℕ) → IsPlain xs → c_string (xs ++ (0 ∷ ys)) ≡ xs
unfolding c_string
c_string-append [] ys h = refl
c_string-append (c ∷ cs) ys (n0, n40, n43, h) =
    rw (differ c 0 n0) (ap (λ r. c ∷ r) (c_string-append cs ys h))

-- Where the three marks of a frame are.
abbrev offset_at : Frame → ℕ
offset_at f = suc (length f.file) + length f.name

abbrev marks_of : Frame → Marks
marks_of f = record {
  begin_name = some (length f.file);
  begin_offset = some (offset_at f);
  end_offset = some (suc (offset_at f) + length f.offset);
}

scan-frame_text : (f : Frame) → IsFrame f → scan 0 (frame_text f) no_marks ≡ marks_of f
unfolding scan
scan-frame_text f h =
    let name_at = length f.file in
    let named : Marks = record no_marks { begin_name = some name_at } in
    let both : Marks = record named { begin_offset = some (offset_at f) } in
    scan-plain 0 f.file _ no_marks h.file_plain refl
    ∙ ap (λ i. scan i (40 ∷ (f.name ++ (43 ∷ (f.offset ++ (41 ∷ f.address))))) no_marks)
        (omega arith)
    ∙ scan-plain (suc name_at) f.name _ named h.name_plain refl
    ∙ scan-offset (suc (offset_at f)) f.offset (41 ∷ f.address) both h.offset_plain

-- The frame with the three bytes overwritten.
abbrev cut_text : Frame → List ℕ
cut_text f = f.file ++ (0 ∷ (f.name ++ (0 ∷ (f.offset ++ (0 ∷ f.address)))))

cut_text-eq :
    (f : Frame)
    → set_at
        (suc (offset_at f) + length f.offset)
        0
        (set_at (offset_at f) 0 (set_at (length f.file) 0 (frame_text f)))
      ≡ cut_text f
unfolding set_at
cut_text-eq f =
    let o = offset_at f in
    let e = suc (offset_at f) + length f.offset in
    let tail = f.offset ++ (41 ∷ f.address) in
    let at_offset : o ≡ length f.file + suc (length f.name) = omega arith in
    let at_end : e ≡ length f.file + suc (length f.name + suc (length f.offset)) = omega arith in
    ap (λ t. set_at e 0 (set_at o 0 t)) (set_at-append f.file (f.name ++ (43 ∷ tail)) 40 0)
    ∙ ap (λ t. set_at e 0 t)
        (ap (λ i. set_at i 0 (f.file ++ (0 ∷ (f.name ++ (43 ∷ tail))))) at_offset
          ∙ set_at-past f.file (0 ∷ (f.name ++ (43 ∷ tail))) (suc (length f.name)) 0
          ∙ ap (λ t. f.file ++ (0 ∷ t)) (set_at-append f.name tail 43 0))
    ∙ ap (λ i. set_at i 0 (f.file ++ (0 ∷ (f.name ++ (0 ∷ tail))))) at_end
    ∙ set_at-past f.file (0 ∷ (f.name ++ (0 ∷ tail))) (suc (length f.name + suc (length f.offset)))
        0
    ∙ ap (λ t. f.file ++ (0 ∷ t))
        (set_at-past f.name (0 ∷ tail) (suc (length f.offset)) 0
          ∙ ap (λ t. f.name ++ (0 ∷ t)) (set_at-append f.offset f.address 41 0))

drop-cut_text : (xs ys : List ℕ) (c : ℕ) → drop (suc (length xs)) (xs ++ (c ∷ ys)) ≡ ys
drop-cut_text [] ys c = refl
drop-cut_text (x ∷ xs) ys c = drop-cut_text xs ys c

-- A frame that `backtrace_symbols` writes with a name and an offset is cut into its file and its name.
pub cut_frame-frame_text : (f : Frame) → IsFrame f → cut_frame (frame_text f) ≡ ok (f.file, f.name)
unfolding cut_frame
cut_frame-frame_text f h =
    rw
      (
        scan-frame_text f h,
        cut_text-eq f,
        c_string-append f.file (f.name ++ (0 ∷ (f.offset ++ (0 ∷ f.address)))) h.file_plain,
        drop-cut_text f.file (f.name ++ (0 ∷ (f.offset ++ (0 ∷ f.address)))) 0,
        c_string-append f.name (f.offset ++ (0 ∷ f.address)) h.name_plain,
      )
      refl
