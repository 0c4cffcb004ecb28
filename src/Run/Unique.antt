-- ===== src/Run/Unique.antt =====
-- The loops of `RunManifest::validate` in crates/secureflow-model/src/lib.rs that collect the keys
-- of the items in a `BTreeSet`.
use secureflow.Prelude.{
  ◌≡◌, ◌≢◌, ◌↔◌, refl, false, List, [], ◌∷◌, any, All, Result, ok, refuse, ◌>>◌, Passes, >>-Passes,
  refuse-Passes, arith,
}
use secureflow.Text.{Text, text_eq, text_eq_iff}

-- The loops over artifacts, findings and abstentions: each item is validated, and its key is
-- inserted into a `BTreeSet`, whose members are `seen`.
module _ {ℓ} {E : Type 0} {A : Type ℓ} (check : A → Result E (Unit {0})) (key : A → Text)
    (duplicate : E) where
  unfoldable pub each_unique : List Text → List A → Result E (Unit {0})
  each_unique seen [] = ok tt
  each_unique seen (x ∷ xs) =
      check x >> refuse (any (text_eq (key x)) seen) duplicate >> each_unique (key x ∷ seen) xs

-- No two items have one key.
abbrev pub KeysUnique {ℓ} : {A : Type ℓ} → (A → Text) → List A → Type 0
KeysUnique key [] = Unit
KeysUnique key (x ∷ xs) = All (λ y. key x ≢ key y) xs × KeysUnique key xs

abbrev pub IsNew {ℓ} : {A : Type ℓ} → (A → Text) → List Text → A → Type 0
IsNew key seen x = any (text_eq (key x)) seen ≡ false

module _ {ℓ} {A : Type ℓ} (key : A → Text) where
  New-cons :
      (k : Text) (seen : List Text) (y : A)
      → IsNew key (k ∷ seen) y ↔ ((k ≢ key y) × IsNew key seen y)
  New-cons k seen y = (
    (λ h. ((λ e. ground (arith, text_eq_iff (key y) k, e)), ground arith)),
    (λ h. ground (arith, text_eq_iff (key y) k, h.0, h.1)),
  )

  pub All-New-cons :
      (k : Text) (seen : List Text) (ys : List A)
      → All (IsNew key (k ∷ seen)) ys ↔ (All (λ y. k ≢ key y) ys × All (IsNew key seen) ys)
  All-New-cons k seen [] = (λ h. (tt, tt), λ h. tt)
  All-New-cons k seen (y ∷ ys) =
      let head = New-cons k seen y in
      let ih = All-New-cons k seen ys in
      (
        (λ h. (((head.0 h.0).0, (ih.0 h.1).0), ((head.0 h.0).1, (ih.0 h.1).1))),
        (λ h. (head.1 (h.0.0, h.1.0), ih.1 (h.0.1, h.1.1))),
      )

  pub All-New-nil : (xs : List A) → All (IsNew key []) xs
  All-New-nil [] = tt
  All-New-nil (x ∷ xs) = (refl, All-New-nil xs)

module _ {ℓ} {E : Type 0} {A : Type ℓ} (check : A → Result E (Unit {0})) (key : A → Text)
    (dup : E) where
  each_unique_step :
      (seen : List Text) (x : A) (xs : List A)
      → Passes (each_unique check key dup seen (x ∷ xs)) ↔ (
          Passes (check x)
          × IsNew key seen x
          × Passes (each_unique check key dup (key x ∷ seen) xs))
  unfolding each_unique
  each_unique_step seen x xs =
      let outer =
        >>-Passes (check x >> refuse (any (text_eq (key x)) seen) dup)
          (each_unique check key dup (key x ∷ seen) xs) in
      let inner = >>-Passes (check x) (refuse (any (text_eq (key x)) seen) dup) in
      let test = refuse-Passes (any (text_eq (key x)) seen) dup in
      (
        (λ h. let a = outer.0 h in let b = inner.0 a.0 in (b.0, test.0 b.1, a.1)),
        (λ h. outer.1 (inner.1 (h.0, test.1 h.1), h.2)),
      )

  unique_from :
      (seen : List Text) (xs : List A)
      → Passes (each_unique check key dup seen xs)
        ↔ (All (λ x. Passes (check x)) xs × KeysUnique key xs × All (IsNew key seen) xs)
  unique_from seen [] = (λ h. (tt, tt, tt), λ h. unfold each_unique in refl)
  unique_from seen (x ∷ xs) =
      let step = each_unique_step seen x xs in
      let ih = unique_from (key x ∷ seen) xs in
      let new = All-New-cons key (key x) seen xs in
      (
        (λ h.
            let s = step.0 h in
            let t = ih.0 s.2 in let n = new.0 t.2 in ((s.0, t.0), (n.0, t.1), (s.1, n.1))),
        (λ h. step.1 (h.0.0, h.2.0, ih.1 (h.0.1, h.1.1, new.1 (h.1.0, h.2.1)))),
      )

  -- Such a loop accepts a list when each item is accepted and the keys are unique.
  pub each_unique_iff :
      (xs : List A)
      → Passes (each_unique check key dup [] xs)
        ↔ (All (λ x. Passes (check x)) xs × KeysUnique key xs)
  each_unique_iff xs =
      let from = unique_from [] xs in
      ((λ h. let r = from.0 h in (r.0, r.1)), (λ h. from.1 (h.0, h.1, All-New-nil key xs)))
