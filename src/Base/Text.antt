-- ===== src/Base/Text.antt =====
-- Decimal digits, as `std::to_string` and `%zd` print them, and texts that are compared byte by byte.
use native.Mathlib.Omega.{pow_step}
use mathlib.Core.Path.{refl}
use ham.Base.{
  ◌&&◌, false, Bool, ◌++◌, true, Bool-cases, ℕ, zero, suc, ◌+◌, ◌-◌, ◌*◌, ◌/◌, ◌%◌, ◌^◌, ◌<◌, ◌≡◌,
  sym, ap, ◌∙◌, inl, inr, List, [], ◌∷◌, arith, ◌==◌, if◌then◌else◌,
}

-- The last digits of `n`, in front of `acc`.
abbrev pub digits_from : ℕ → ℕ → List ℕ → List ℕ
digits_from zero n acc = acc
digits_from (suc places) n acc =
    let more = digits_from places (n / 10) ((48 + n % 10) ∷ acc) in
    if n / 10 == 0 then (48 + n % 10) ∷ acc else more

-- 20 places hold every number of 64 bits.
unfoldable pub decimal : ℕ → List ℕ
decimal n = digits_from 20 n []

-- The number that digits spell, behind the digits of `n`.
value : ℕ → List ℕ → ℕ
value n [] = n
value n (d ∷ ds) = value (10 * n + (d - 48)) ds

value-digits_from :
    (places n : ℕ) (acc : List ℕ)
    → n < 10 ^ places
    → value 0 (digits_from places n acc) ≡ value n acc
unfolding value
value-digits_from zero n acc h = ap (λ k. value k acc) (omega arith)
value-digits_from (suc places) n acc h = elim (Bool-cases (n / 10 == 0)) [
  | inl last ↦ rw last (ap (λ k. value k acc) (ground arith))
  | inr more ↦ rw more (
      value-digits_from places (n / 10) ((48 + n % 10) ∷ acc) (omega (arith, pow_step 10 places))
      ∙ ap (λ k. value k acc) (omega arith))
]

-- Different numbers are printed differently.
pub decimal-injective : (m n : ℕ) → m < 10 ^ 20 → n < 10 ^ 20 → decimal m ≡ decimal n → m ≡ n
unfolding decimal value
decimal-injective m n hm hn e =
    sym (value-digits_from 20 m [] hm) ∙ (ap (value 0) e ∙ value-digits_from 20 n [] hn)

abbrev pub same_text : List ℕ → List ℕ → Bool
same_text [] [] = true
same_text [] (y ∷ ys) = false
same_text (x ∷ xs) [] = false
same_text (x ∷ xs) (y ∷ ys) = (x == y) && same_text xs ys

pub same_text_self : (xs : List ℕ) → same_text xs xs ≡ true
same_text_self [] = refl
same_text_self (x ∷ xs) = ground (arith, same_text_self xs)

pub eq_of_same_text : (xs ys : List ℕ) → same_text xs ys ≡ true → xs ≡ ys
eq_of_same_text [] [] e = refl
eq_of_same_text [] (y ∷ ys) e = ground arith
eq_of_same_text (x ∷ xs) [] e = ground arith
eq_of_same_text (x ∷ xs) (y ∷ ys) e = ground (arith, eq_of_same_text xs ys)

pub append-cancel : (xs : List ℕ) {ys zs : List ℕ} → xs ++ ys ≡ xs ++ zs → ys ≡ zs
append-cancel [] e = e
append-cancel (x ∷ xs) e = append-cancel xs (ground (arith, e))
