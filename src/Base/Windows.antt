-- ===== src/Base/Windows.antt =====
-- A window of a list, and what a copy into the list does to it.
use ham.Base.Lists.{length, take, drop, length-append, length-take, length-drop}
use ham.Base.Slices.{
  take_all, drop-append_le, drop-append_ge, take-append_le, take-append_ge, drop-take, take-take_le,
}
use native.Mathlib.Omega.{arith}
use Prim.Native.Nat.{ℕ, ◌+◌, ◌-◌, ◌≤◌}
use mathlib.Core.Path.{◌≡◌, ap, ◌∙◌, ◌≡⟨◌⟩◌, ◌∎}
use mathlib.Core.List.{List, ◌++◌}

module _ {ℓ} {A : Type ℓ} where
  -- The `n` entries from index `i` on.
  abbrev pub window : List A → ℕ → ℕ → List A
  window s i n = take n (drop i s)

  -- `s` with `d` copied to index `i`.
  abbrev pub splice : List A → ℕ → List A → List A
  splice s i d = take i s ++ (d ++ drop (i + length d) s)

module _ {ℓ} {A : Type ℓ} where
  pub length-window : (s : List A) (i n : ℕ) → i + n ≤ length s → length (window s i n) ≡ n
  length-window s i n h = omega (arith, length-take n (drop i s), length-drop i s)

  pub length-splice :
      (s : List A) (i : ℕ) (d : List A) → i + length d ≤ length s → length (splice s i d) ≡ length s
  length-splice s i d h = omega (
    arith,
    length-append (take i s) (d ++ drop (i + length d) s),
    length-append d (drop (i + length d) s),
    length-take i s,
    length-drop (i + length d) s,
  )

  take-append_self : (xs ys : List A) (n : ℕ) → n ≡ length xs → take n (xs ++ ys) ≡ xs
  take-append_self xs ys n e = take-append_le n xs ys (omega arith) ∙ take_all n xs (omega arith)

  pub drop-splice :
      (s : List A) (i : ℕ) (d : List A)
      → i ≤ length s
      → drop i (splice s i d) ≡ d ++ drop (i + length d) s
  drop-splice s i d h =
      let e : i - length (take i s) ≡ 0 = omega (arith, length-take i s) in
      rw (
        drop-append_ge i (take i s) (d ++ drop (i + length d) s) (omega (arith, length-take i s)),
        e,
      )

  -- What stands before the copy is longer by the copied entries.
  pub window-splice_after :
      (s : List A) (r i n : ℕ) (d : List A)
      → r ≤ i
      → i ≤ length s
      → n ≡ i - r + length d
      → window (splice s i d) r n ≡ window s r (i - r) ++ d
  window-splice_after s r i n d h k e =
      window (splice s i d) r n
      ≡⟨ ap (take n) (drop-append_le r (take i s) tail (omega (arith, length-take i s))) ⟩
        take n (drop r (take i s) ++ tail)
      ≡⟨ ap (λ l. take n (l ++ tail)) (drop-take r i s) ⟩ take n (window s r (i - r) ++ tail)
      ≡⟨ take-append_ge n (window s r (i - r)) tail (omega (arith, len)) ⟩
        window s r (i - r) ++ take (n - length (window s r (i - r))) tail
      ≡⟨ ap (λ l. window s r (i - r) ++ l)
          (take-append_self d (drop (i + length d) s) _ (omega (arith, len))) ⟩
        window s r (i - r) ++ d ∎
    where
      tail : List A
      tail = d ++ drop (i + length d) s

      len : length (window s r (i - r)) ≡ i - r
      len = length-window s r (i - r) (omega arith)

  -- A copy that ends where a window begins stands before it.
  pub window-splice_before :
      (s : List A) (r i n m : ℕ) (d : List A)
      → i + length d ≡ r
      → r ≤ length s
      → m ≡ length d + n
      → window (splice s i d) i m ≡ d ++ window s r n
  window-splice_before s r i n m d h k e =
      let e' : m - length d ≡ n = omega arith in
      rw (
        drop-splice s i d (omega arith),
        take-append_ge m d (drop (i + length d) s) (omega arith),
        e',
        h,
      )

  -- Cutting and lengthening a list past a window leaves the window.
  pub window-resize :
      (s z : List A) (r k n : ℕ)
      → r + k ≤ n
      → r + k ≤ length s
      → window (take n s ++ z) r k ≡ window s r k
  window-resize s z r k n h h' =
      window (take n s ++ z) r k
      ≡⟨ ap (take k) (drop-append_le r (take n s) z (omega (arith, length-take n s))) ⟩
        take k (drop r (take n s) ++ z)
      ≡⟨ take-append_le k (drop r (take n s)) z
          (omega (arith, length-drop r (take n s), length-take n s)) ⟩
        take k (drop r (take n s))
      ≡⟨ ap (take k) (drop-take r n s) ⟩ take k (take (n - r) (drop r s))
      ≡⟨ take-take_le k (n - r) (drop r s) (omega arith) ⟩ window s r k ∎
