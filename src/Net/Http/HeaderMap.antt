-- ===== src/Net/Http/HeaderMap.antt =====
-- `std::map<std::string, std::string>` as the sorted list of its entries, in the order in which the
-- code iterates over it.
use Prim.Native.Nat.{compare}
use Prim.Native.Nat.{compare, Ordering}
use ham.Base.{ℕ, ◌≡◌, refl, Option, none, some, List, [], ◌∷◌, arith}

pub data Order : Type 0 where
  less equal greater : Order

-- `std::string::compare`: byte by byte, a proper prefix is less.
abbrev pub compare_text : List ℕ → List ℕ → Order
compare_text [] [] = equal
compare_text [] (y ∷ ys) = less
compare_text (x ∷ xs) [] = greater
compare_text (x ∷ xs) (y ∷ ys) = elim (compare x y) [
  | Ordering.lt ↦ less
  | Ordering.eq ↦ compare_text xs ys
  | Ordering.gt ↦ greater
]

abbrev pub HeaderMap : Type 0
HeaderMap = List (List ℕ × List ℕ)

-- `map[key] = value`.
unfoldable pub assign : List ℕ → List ℕ → HeaderMap → HeaderMap
assign k v [] = (k, v) ∷ []
assign k v ((j, w) ∷ m) = elim (compare_text k j) [
  | less ↦ (k, v) ∷ (j, w) ∷ m
  | equal ↦ (k, v) ∷ m
  | greater ↦ (j, w) ∷ assign k v m
]

-- `map.find(key)`.
unfoldable pub find : List ℕ → HeaderMap → Option (List ℕ)
find k [] = none
find k ((j, w) ∷ m) = elim (compare_text k j) [ less ↦ none | equal ↦ some w | greater ↦ find k m ]

pub compare_text_self : (k : List ℕ) → compare_text k k ≡ equal
compare_text_self [] = refl
compare_text_self (x ∷ xs) = ground (arith, compare_text_self xs)

pub eq_of_compare_text : (k j : List ℕ) → compare_text k j ≡ equal → k ≡ j
eq_of_compare_text [] [] h = refl
eq_of_compare_text [] (y ∷ ys) h = ground arith
eq_of_compare_text (x ∷ xs) [] h = ground arith
eq_of_compare_text (x ∷ xs) (y ∷ ys) h = ground (arith, eq_of_compare_text xs ys)

-- The order is a strict one: what is less than a lesser key is less.
compare_text_trans :
    (a b c : List ℕ) → compare_text a b ≡ less → compare_text b c ≡ less → compare_text a c ≡ less
compare_text_trans [] [] c h k = ground arith
compare_text_trans [] (y ∷ ys) [] h k = ground arith
compare_text_trans [] (y ∷ ys) (z ∷ zs) h k = refl
compare_text_trans (x ∷ xs) [] c h k = ground arith
compare_text_trans (x ∷ xs) (y ∷ ys) [] h k = ground arith
compare_text_trans (x ∷ xs) (y ∷ ys) (z ∷ zs) h k = ground (arith, compare_text_trans xs ys zs)

compare_text-flip : (a b : List ℕ) → compare_text a b ≡ greater → compare_text b a ≡ less
compare_text-flip [] [] h = ground arith
compare_text-flip [] (y ∷ ys) h = ground arith
compare_text-flip (x ∷ xs) [] h = refl
compare_text-flip (x ∷ xs) (y ∷ ys) h = ground (arith, compare_text-flip xs ys)

-- A map finds what was assigned to a key, and the other keys are as before. (No order of the
-- entries is needed where the key is the one assigned.)
pub find-assign_self : (k v : List ℕ) (m : HeaderMap) → find k (assign k v m) ≡ some v
unfolding find assign
find-assign_self k v [] = ground (arith, compare_text_self k)
find-assign_self k v ((j, w) ∷ m) = ground (arith, compare_text_self k, find-assign_self k v m)

-- Every key is greater than `k`.
abbrev AreAbove : List ℕ → HeaderMap → Type 0
AreAbove k [] = Unit {0}
AreAbove k ((j, w) ∷ m) = (compare_text k j ≡ less) × AreAbove k m

abbrev pub IsSorted : HeaderMap → Type 0
IsSorted [] = Unit {0}
IsSorted ((j, w) ∷ m) = AreAbove j m × IsSorted m

AreAbove-trans :
    (a b : List ℕ) (m : HeaderMap) → compare_text a b ≡ less → AreAbove b m → AreAbove a m
AreAbove-trans a b [] h k = tt
AreAbove-trans a b ((j, w) ∷ m) h k = (compare_text_trans a b j h k.0, AreAbove-trans a b m h k.1)

assign-AreAbove :
    (a k v : List ℕ) (m : HeaderMap)
    → compare_text a k ≡ less
    → AreAbove a m
    → AreAbove a (assign k v m)
unfolding assign
assign-AreAbove a k v [] h b = (h, tt)
assign-AreAbove a k v ((j, w) ∷ m) h b = ground (arith, assign-AreAbove a k v m h b.1)

pub assign-IsSorted : (k v : List ℕ) (m : HeaderMap) → IsSorted m → IsSorted (assign k v m)
unfolding assign
assign-IsSorted k v [] s = (tt, tt)
assign-IsSorted k v ((j, w) ∷ m) s = ground (
  arith,
  assign-IsSorted k v m s.1,
  assign-AreAbove j k v m,
  compare_text-flip k j,
  eq_of_compare_text k j,
  AreAbove-trans k j m,
)
