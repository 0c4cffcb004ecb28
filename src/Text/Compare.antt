-- ===== src/Text/Compare.antt =====
-- The order of `str`: lexicographic by bytes.
use Prim.Native.Nat.{compare, Ordering}
use secureflow.Prelude.{ℕ, ◌≡◌, refl, List, [], ◌∷◌, arith}
use secureflow.Prelude.Sorting.{◌then_with◌, reverse, IsOrder}

unfoldable pub cmp : List ℕ → List ℕ → Ordering
cmp [] [] = Ordering.eq
cmp [] (_ ∷ _) = Ordering.lt
cmp (_ ∷ _) [] = Ordering.gt
cmp (a ∷ s) (b ∷ t) = compare a b then_with cmp s t

cmp_swap : (s t : List ℕ) → cmp t s ≡ reverse (cmp s t)
unfolding cmp
cmp_swap [] [] = refl
cmp_swap [] (b ∷ t) = refl
cmp_swap (a ∷ s) [] = refl
cmp_swap (a ∷ s) (b ∷ t) = ground (arith, cmp_swap s t)

-- Texts that compare equal are equal.
pub cmp_eq : (s t : List ℕ) → cmp s t ≡ Ordering.eq → s ≡ t
unfolding cmp
cmp_eq [] [] h = refl
cmp_eq [] (b ∷ t) h = cc
cmp_eq (a ∷ s) [] h = cc
cmp_eq (a ∷ s) (b ∷ t) h = ground (arith, cmp_eq s t)

cmp_lt_trans :
    (s t u : List ℕ) → cmp s t ≡ Ordering.lt → cmp t u ≡ Ordering.lt → cmp s u ≡ Ordering.lt
unfolding cmp
cmp_lt_trans [] [] u h k = cc
cmp_lt_trans [] (b ∷ t) [] h k = cc
cmp_lt_trans [] (b ∷ t) (c ∷ u) h k = refl
cmp_lt_trans (a ∷ s) [] u h k = cc
cmp_lt_trans (a ∷ s) (b ∷ t) [] h k = cc
cmp_lt_trans (a ∷ s) (b ∷ t) (c ∷ u) h k =
    ground (arith, cmp_lt_trans s t u, cmp_eq s t, cmp_eq t u)

eq_left : (s t u : List ℕ) → cmp s t ≡ Ordering.eq → cmp s u ≡ cmp t u
eq_left s t u h = cc (cmp_eq s t h)

pub cmp-IsOrder : IsOrder cmp
cmp-IsOrder = record { swap = cmp_swap; eq_left = eq_left; lt_trans = cmp_lt_trans }
