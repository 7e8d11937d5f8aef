-- ===== src/Exception.antt =====
-- ham/base/Exception.cc: the stack trace of an exception, out of the texts that `backtrace_symbols`
-- gives. `demangle` stands for `abi::__cxa_demangle`. A pointer into a text is a position, and a null
-- pointer none.
pub mod Frames
pub mod Trace
mod Examples
use ham.Base.{
  undefined, ℕ, zero, suc, ◌+◌, ◌-◌, ◌*◌, ◌/◌, ◌%◌, ◌^◌, ◌≤◌, ◌<◌, min, String, ◌≡◌, refl, sym, ap,
  ◌∙◌, ◌≢◌, ◌⊎◌, inl, inr, Bool, true, false, not, ◌&&◌, ◌||◌, Option, none, some, List, [], ◌∷◌,
  ◌++◌, arith, ltb, leb, ◌==◌, if◌then◌else◌, add_size, sub_size, length, take, drop, bytes, Result,
  ok, err, ◌>>=◌, ◌>>◌, assert, Returns,
}

-- `begin_name`, `begin_offset` and `end_offset`.
pub record Marks : Type 0 where
  pub begin_name : Option ℕ
  pub begin_offset : Option ℕ
  pub end_offset : Option ℕ

abbrev pub no_marks : Marks
no_marks = record { begin_name = none; begin_offset = none; end_offset = none }

abbrev pub is_null : Option ℕ → Bool
is_null none = true
is_null (some i) = false

-- What one byte, at position `i`, does to the marks.
abbrev pub mark : ℕ → ℕ → Marks → Marks
mark i c m =
    if c == 40
    then record m { begin_name = some i }
    else (if c == 43 then record m { begin_offset = some i } else m)

-- The byte that ends the loop: `)` after a `+`.
abbrev pub stops : ℕ → Marks → Bool
stops c m = (c == 41) && not (is_null m.begin_offset)

unfoldable pub scan : ℕ → List ℕ → Marks → Marks
scan i [] m = m
scan i (c ∷ cs) m =
    let rest = scan (suc i) cs (mark i c m) in
    if stops c m then record m { end_offset = some i } else rest

-- A write through a null pointer is undefined.
abbrev pub pointer : Option ℕ → Result ℕ
pointer none = err undefined
pointer (some i) = ok i

unfoldable pub set_at : ℕ → ℕ → List ℕ → List ℕ
set_at i c xs = take i xs ++ (c ∷ drop (suc i) xs)

-- The bytes up to the first zero.
unfoldable pub c_string : List ℕ → List ℕ
c_string [] = []
c_string (c ∷ cs) = let rest = c_string cs in if c == 0 then [] else c ∷ rest

-- `funcNames[i]` and `begin_name` after the three bytes have been overwritten.
unfoldable pub cut_frame : List ℕ → Result (List ℕ × List ℕ)
unfolding scan set_at c_string
cut_frame text = do
  let m = scan 0 text no_marks
  b ← pointer m.begin_name
  o ← pointer m.begin_offset
  e ← pointer m.end_offset
  let cut = set_at e 0 (set_at o 0 (set_at b 0 text))
  ok (c_string cut, c_string (drop (suc b) cut))

-- A name that cannot be demangled gives the text before it, without a new line.
abbrev pub shown : Option (List ℕ) → List ℕ → List ℕ
shown none before = before
shown (some name) before = name ++ bytes "\n"

unfoldable pub append_frames : (List ℕ → Option (List ℕ)) → List (List ℕ) → List ℕ → Result (List ℕ)
unfolding cut_frame
append_frames demangle [] stack = ok stack
append_frames demangle (text ∷ texts) stack = cut_frame text >>= λ (before, name).
    append_frames demangle texts (stack ++ shown (demangle name) before)

-- `fillStack`; the first frame is its own. `none` is a failed `backtrace_symbols`.
unfoldable pub fill_stack : (List ℕ → Option (List ℕ)) → Option (List (List ℕ)) → Result (List ℕ)
unfolding append_frames
fill_stack demangle none = ok []
fill_stack demangle (some texts) = append_frames demangle (drop 1 texts) []
