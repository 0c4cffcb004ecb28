-- ===== src/Prelude/Sorting/Laws.antt =====
-- The sort permutes, its result ascends, and it does not depend on the order of its input where
-- elements that compare equal are equal.
use Prim.Native.Nat.{◌+◌, compare, Ordering}
use mathlib.Core.Path.{◌≡◌, refl, ap₂, ◌∙◌}
use mathlib.Core.Bool.{true, false}
use mathlib.Core.Logic.{inl, inr, ∥∥₁_elim}
use mathlib.Core.List.{List, [], ◌∷◌, Mem, Perm, Permᴰ, mem-cons_self, mem-cons_of_mem}
use mathlib.Core.List.Perm
use mathlib.Core.List.Permᴰ as PermD
use mathlib.Core.List.{is_set as list_is_set}
use native.Mathlib.Omega.{arith}
use secureflow.Prelude.Tests.{Bool-cases}
use secureflow.Prelude.Lists.{All, All-map, length}
use secureflow.Prelude.Sorting.{◌then_with◌, is_gt, is_lt, IsOrder, insert, sort_by}

pub compare-IsOrder : IsOrder compare
compare-IsOrder = record {
  swap = λ x y. ground arith;
  eq_left = λ x y z h. ground arith;
  lt_trans = λ x y z h k. ground arith;
}

-- `|a, b| key(a).cmp(&key(b))`
pub comparing-IsOrder {ℓ κ} :
    {A : Type ℓ} {B : Type κ} (key : A → B) {cmp : B → B → Ordering}
    → IsOrder cmp
    → IsOrder (λ x y. cmp (key x) (key y))
comparing-IsOrder key o = record {
  swap = λ x y. o.swap (key x) (key y);
  eq_left = λ x y z. o.eq_left (key x) (key y) (key z);
  lt_trans = λ x y z. o.lt_trans (key x) (key y) (key z);
}

-- `|a, b| cmp(b, a)`
pub flip-IsOrder {ℓ} :
    {A : Type ℓ} {cmp : A → A → Ordering} → IsOrder cmp → IsOrder (λ x y. cmp y x)
flip-IsOrder {A} {cmp} o = record {
  swap = λ x y. o.swap y x;
  eq_left =
      λ x y z h. ground (arith, o.swap y x, o.eq_left x y z, o.swap x z, o.swap y z, o.swap x y);
  lt_trans = λ x y z h k. o.lt_trans z y x k h;
}

module _ {ℓ} {A : Type ℓ} {c d : A → A → Ordering} (oc : IsOrder c) (od : IsOrder d) where
  pub then_with-IsOrder : IsOrder (λ x y. c x y then_with d x y)
  then_with-IsOrder = record {
    swap = λ x y. ground (arith, oc.swap x y, od.swap x y);
    eq_left = λ x y z h. ground (arith, oc.eq_left x y z, od.eq_left x y z);
    lt_trans = λ x y z h k. ground (
      arith,
      oc.lt_trans x y z,
      od.lt_trans x y z,
      oc.eq_left x y z,
      oc.eq_left z y x,
      oc.swap y z,
      oc.swap x z,
      oc.swap x y,
    );
  }

module _ {ℓ} {A : Type ℓ} (cmp : A → A → Ordering) where
  abbrev pub IsBelow : A → List A → Type 0
  IsBelow x l = All (λ y. is_gt (cmp x y) ≡ false) l

  -- No element is greater than a later one.
  abbrev pub IsSorted : List A → Type 0
  IsSorted [] = Unit
  IsSorted (x ∷ xs) = IsBelow x xs × IsSorted xs

  -- Elements that compare equal are equal.
  abbrev pub Agree : A → A → Type ℓ
  Agree x y = cmp x y ≡ Ordering.eq → x ≡ y

  abbrev pub MembersAgree : List A → Type ℓ
  MembersAgree l = (x y : A) → Mem x l → Mem y l → Agree x y

  pub insert-perm : (x : A) (l : List A) → Perm (insert cmp x l) (x ∷ l)
  unfolding insert
  insert-perm x [] = Perm.rfl
  insert-perm x (y ∷ l) = elim (Bool-cases (is_gt (cmp x y))) [
    | inl g ↦ rw g (Perm.trans (Perm.cons y (insert-perm x l)) (Perm.swap x y l))
    | inr g ↦ rw g Perm.rfl
  ]

  pub sort_by-perm : (l : List A) → Perm (sort_by cmp l) l
  unfolding sort_by
  sort_by-perm [] = Perm.rfl
  sort_by-perm (x ∷ l) = Perm.trans (insert-perm x (sort_by cmp l)) (Perm.cons x (sort_by-perm l))

  pub length-insert : (x : A) (l : List A) → length (insert cmp x l) ≡ length l + 1
  unfolding insert
  length-insert x [] = omega arith
  length-insert x (y ∷ l) = ground (arith, length-insert x l)

  pub length-sort_by : (l : List A) → length (sort_by cmp l) ≡ length l
  unfolding sort_by
  length-sort_by [] = refl
  length-sort_by (x ∷ l) = omega (arith, length-insert x (sort_by cmp l), length-sort_by l)

  pub All-insert {κ} :
      (P : A → Type κ) (x : A) (l : List A) → P x → All P l → All P (insert cmp x l)
  unfolding insert
  All-insert P x [] p h = (p, tt)
  All-insert P x (y ∷ l) p h = elim (Bool-cases (is_gt (cmp x y))) [
    | inl g ↦ rw g (h.0, All-insert P x l p h.1)
    | inr g ↦ rw g (p, h)
  ]

  pub All-sort_by {κ} : (P : A → Type κ) (l : List A) → All P l → All P (sort_by cmp l)
  unfolding sort_by
  All-sort_by P [] h = tt
  All-sort_by P (x ∷ l) h = All-insert P x (sort_by cmp l) h.0 (All-sort_by P l h.1)

module _ {ℓ} {A : Type ℓ} {cmp : A → A → Ordering} (o : IsOrder cmp) where
  le_trans :
      (x y z : A) → is_gt (cmp x y) ≡ false → is_gt (cmp y z) ≡ false → is_gt (cmp x z) ≡ false
  le_trans x y z h k = ground (
    arith,
    o.lt_trans x y z,
    o.eq_left x y z,
    o.eq_left z y x,
    o.swap y z,
    o.swap x z,
    o.swap x y,
  )

  insert-IsSorted : (x : A) (l : List A) → IsSorted cmp l → IsSorted cmp (insert cmp x l)
  unfolding insert
  insert-IsSorted x [] s = (tt, tt)
  insert-IsSorted x (y ∷ l) s = elim (Bool-cases (is_gt (cmp x y))) [
    | inl g ↦ rw g (
      All-insert cmp (λ z. is_gt (cmp y z) ≡ false) x l (ground (arith, o.swap x y)) s.0,
      insert-IsSorted x l s.1,
    )
    | inr g ↦ rw g ((g, All-map l (λ z h. le_trans x y z g h) s.0), s)
  ]

  -- The result ascends.
  pub sort_by-IsSorted : (l : List A) → IsSorted cmp (sort_by cmp l)
  unfolding sort_by
  sort_by-IsSorted [] = tt
  sort_by-IsSorted (x ∷ l) = insert-IsSorted x (sort_by cmp l) (sort_by-IsSorted l)

  insert-insert :
      (x y : A) (l : List A)
      → Agree cmp x y
      → insert cmp x (insert cmp y l) ≡ insert cmp y (insert cmp x l)
  unfolding insert
  insert-insert x y [] h = ground (arith, o.swap x y)
  insert-insert x y (z ∷ l) h = ground (
    arith,
    o.swap x y,
    insert-insert x y l,
    o.lt_trans x y z,
    o.lt_trans y x z,
    o.eq_left x y z,
    o.swap x z,
    o.swap y z,
    o.eq_left z x y,
    o.eq_left z y x,
    o.lt_trans x z y,
    o.lt_trans y z x,
  )

  sort_by-Permᴰ : {l m : List A} → Permᴰ l m → MembersAgree cmp l → sort_by cmp l ≡ sort_by cmp m
  unfolding sort_by
  sort_by-Permᴰ Permᴰ.nil h = refl
  sort_by-Permᴰ (Permᴰ.cons {a = a} e p) h =
      ap₂ (insert cmp) e
        (sort_by-Permᴰ p (λ x y m n. h x y (mem-cons_of_mem a m) (mem-cons_of_mem a n)))
  sort_by-Permᴰ (Permᴰ.swap {a = a} {b = b} {l = l} e f) h =
      insert-insert a b (sort_by cmp l) (h a b mem-cons_self (mem-cons_of_mem a mem-cons_self))
      ∙ ap₂ (λ y x. insert cmp y (insert cmp x (sort_by cmp l))) f e
  sort_by-Permᴰ (Permᴰ.trans p q) h =
      sort_by-Permᴰ p h
      ∙ sort_by-Permᴰ q (λ x y m n. h x y (PermD.mem (PermD.symm p) m) (PermD.mem (PermD.symm p) n))

  -- Rearranging the input does not change the result.
  pub sort_by-eq_of_perm :
      IsSet A → {l m : List A} → Perm l m → MembersAgree cmp l → sort_by cmp l ≡ sort_by cmp m
  sort_by-eq_of_perm sA {l} {m} p h = ∥∥₁_elim p (list_is_set sA _ _) (λ q. sort_by-Permᴰ q h)

  -- Sorted neighbours that differ are in strict order.
  pub lt_of_sorted_ne :
      (x y : A) → Agree cmp x y → is_gt (cmp x y) ≡ false → (x ≡ y → ⊥) → is_lt (cmp x y) ≡ true
  lt_of_sorted_ne x y agree h differ = ground (arith, agree, differ)
