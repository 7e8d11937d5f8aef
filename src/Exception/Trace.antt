-- ===== src/Exception/Trace.antt =====
-- ham/base/Exception.cc: `fillStack`, over all frames.
use mathlib.Core.List.{append_assoc, append-nil}
use ham.Exception.{
  Marks, no_marks, mark, stops, scan, pointer, cut_frame, shown, append_frames, fill_stack,
}
use ham.Exception.Frames.{Frame, frame_text, IsFrame, cut_frame-frame_text}
use ham.Base.{
  if-both, undefined, ℕ, suc, ◌≡◌, refl, sym, ap, ◌∙◌, ◌≢◌, false, Option, none, some, List, [],
  ◌∷◌, ◌++◌, arith, ◌==◌, Result, ok, err, ◌>>=◌,
}

-- The texts of some frames, before others.
abbrev pub texts : List Frame → List (List ℕ) → List (List ℕ)
texts [] ts = ts
texts (f ∷ fs) ts = frame_text f ∷ texts fs ts

abbrev pub AllFrames : List Frame → Type 0
AllFrames [] = Unit {0}
AllFrames (f ∷ fs) = IsFrame f × AllFrames fs

-- One line for each frame that can be demangled, and the bare file for the others.
abbrev pub line : Option (List ℕ) → List ℕ → List ℕ
line none file = file
line (some name) file = name ++ (10 ∷ [])

shown-line : (r : Option (List ℕ)) (file : List ℕ) → shown r file ≡ line r file
shown-line none file = refl
shown-line (some name) file = refl

abbrev pub trace : (List ℕ → Option (List ℕ)) → List Frame → List ℕ
trace demangle [] = []
trace demangle (f ∷ fs) = line (demangle f.name) f.file ++ trace demangle fs

abbrev pub NoPlus : List ℕ → Type 0
NoPlus [] = Unit {0}
NoPlus (c ∷ cs) = (c ≢ 43) × NoPlus cs

append_frames-texts :
    (demangle : List ℕ → Option (List ℕ)) (fs : List Frame) (ts : List (List ℕ)) (stack : List ℕ)
    → AllFrames fs
    → append_frames demangle (texts fs ts) stack
      ≡ append_frames demangle ts (stack ++ trace demangle fs)
unfolding append_frames
append_frames-texts demangle [] ts stack h = ap (append_frames demangle ts) (sym (append-nil stack))
append_frames-texts demangle (f ∷ fs) ts stack (one, h) =
    rw (cut_frame-frame_text f one, shown-line (demangle f.name) f.file)
      (append_frames-texts demangle fs ts (stack ++ line (demangle f.name) f.file) h
        ∙ ap (append_frames demangle ts) (append_assoc stack _ _))

mark-no_offset :
    (i c : ℕ) (m : Marks) → c ≢ 43 → m.begin_offset ≡ none → (mark i c m).begin_offset ≡ none
mark-no_offset i c m n e = rw (differ c 43 n) (
    if-both (λ (k : Marks). k.begin_offset ≡ none) (c == 40) (record m { begin_name = some i }) m e
      e)
  where
    differ : (a b : ℕ) → (a ≢ b) → (a == b) ≡ false
    differ a b h = ground arith

scan-no_offset :
    (i : ℕ) (xs : List ℕ) (m : Marks)
    → NoPlus xs
    → m.begin_offset ≡ none
    → (scan i xs m).begin_offset ≡ none
unfolding scan
scan-no_offset i [] m h e = e
scan-no_offset i (c ∷ cs) m (n, h) e =
    if-both (λ (k : Marks). k.begin_offset ≡ none) (stops c m) _ _ e
      (scan-no_offset (suc i) cs (mark i c m) h (mark-no_offset i c m n e))

abbrev null_write : Result (List ℕ × List ℕ)
null_write = err undefined

null_offset :
    (m : Marks) (k : ℕ → ℕ → ℕ → Result (List ℕ × List ℕ))
    → m.begin_offset ≡ none
    → (pointer m.begin_name >>= λ b.
        pointer m.begin_offset >>= λ o. pointer m.end_offset >>= λ e. k b o e)
      ≡ err undefined
null_offset m k e = rw e (first m.begin_name)
  where
    first : (b : Option ℕ) → (pointer b >>= λ b. null_write) ≡ err undefined
    first none = refl
    first (some b) = refl

cut_frame-no_offset : (text : List ℕ) → NoPlus text → cut_frame text ≡ err undefined
unfolding cut_frame
cut_frame-no_offset text h =
    null_offset (scan 0 text no_marks) _ (scan-no_offset 0 text no_marks h refl)

-- The stack trace of frames with a name and an offset has one line for each name that can be demangled
-- and the bare file for any other; the first frame is left out. The file and the name have no `(`, no `+`
-- and no zero, but may have a `)`, and the offset has no bracket and no `+`. When a text without a `+`
-- follows such frames, the code writes through a null pointer.
pub fill_stack-outcome :
    (demangle : List ℕ → Option (List ℕ)) (own : List ℕ) (fs : List Frame) (text : List ℕ)
    (rest : List (List ℕ))
    → AllFrames fs
    → NoPlus text
    → (fill_stack demangle (some (own ∷ texts fs [])) ≡ ok (trace demangle fs))
      × (fill_stack demangle (some (own ∷ texts fs (text ∷ rest))) ≡ err undefined)
unfolding fill_stack append_frames
fill_stack-outcome demangle own fs text rest h bad = (
  append_frames-texts demangle fs [] [] h,
  append_frames-texts demangle fs (text ∷ rest) [] h ∙ rw (cut_frame-no_offset text bad) refl,
)
