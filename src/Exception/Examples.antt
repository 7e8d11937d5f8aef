-- ===== src/Exception/Examples.antt =====
-- The theorem on stack traces, at two frames of which one can be demangled.
use ham.Exception.{fill_stack}
use ham.Exception.Frames.{Frame, IsFrame}
use ham.Exception.Trace.{texts, fill_stack-outcome}
use ham.Base.{
  undefined, ℕ, ◌≡◌, Option, none, some, List, [], ◌∷◌, arith, ◌==◌, if◌then◌else◌, length, bytes,
  ok, err,
}

-- `./a)b(_Z1fv+0x1d) [0x40]`.
abbrev mangled : Frame
mangled = record {
  file = bytes "./a)b";
  name = bytes "_Z1fv";
  offset = bytes "0x1d";
  address = bytes " [0x40]";
}

-- `./ham(main+0x9) [0x44]`.
abbrev plain : Frame
plain = record {
  file = bytes "./ham";
  name = bytes "main";
  offset = bytes "0x9";
  address = bytes " [0x44]";
}

-- Only `_Z1fv` is a mangled name.
abbrev demangled : List ℕ → Option (List ℕ)
demangled name = if length name == 5 then some (bytes "f()") else none

mangled-IsFrame : IsFrame mangled
mangled-IsFrame = ground arith

plain-IsFrame : IsFrame plain
plain-IsFrame = ground arith

-- A frame of a function that has no symbol.
abbrev no_symbol : List ℕ
no_symbol = bytes "ham() [0x48]"

fill_stack-outcome_example :
    (fill_stack demangled (some ([] ∷ texts (mangled ∷ plain ∷ []) [])) ≡ ok (bytes "f()\n./ham"))
    × (fill_stack demangled (some ([] ∷ texts (mangled ∷ plain ∷ []) (no_symbol ∷ [])))
        ≡ err undefined)
fill_stack-outcome_example =
    fill_stack-outcome demangled [] (mangled ∷ plain ∷ []) no_symbol []
      (mangled-IsFrame, (plain-IsFrame, tt)) (ground arith)
