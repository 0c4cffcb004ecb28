-- ===== src/Trust/Errors.antt =====
-- `TrustError` of crates/secureflow-knowledge/src/catalog_trust/mod.rs, by its code. The messages,
-- which only a reader sees, are left out.
use secureflow.Prelude.{
  >>=-eq-ok, subst, ◌>>=◌, [], ◌∷◌, List, ◌≡◌, refl, Bool, true, false, Option, none, some, Result,
  ok, err,
}

pub data Code : Type 0 where
  format scope clock bootstrap expiry rollback equivocation signature state integrity filesystem :
      Code

abbrev pub Tried : Type 0 → Type 0
Tried A = Result Code A

abbrev pub Checked : Type 0
Checked = Tried (Unit {0})

abbrev pub require : Bool → Code → Checked
require true code = ok tt
require false code = err code

-- `ok_or_else(|| error(code, ..))`, and `map_err(|e| error(code, e))` of an outside call
abbrev pub or_error : {A : Type 0} → Code → Option A → Tried A
or_error code none = err code
or_error code (some a) = ok a

-- A call whose value is dropped.
abbrev pub check : {A : Type 0} → Tried A → Checked
check (ok _) = ok tt
check (err e) = err e

pub require-eq-ok : (b : Bool) (code : Code) → require b code ≡ ok tt → b ≡ true
require-eq-ok true code h = refl
require-eq-ok false code h = cc

pub or_error-eq-ok :
    {A : Type 0} (code : Code) (o : Option A) {a : A} → or_error code o ≡ ok a → o ≡ some a
or_error-eq-ok code none h = cc
or_error-eq-ok code (some a) h = cc

-- `for item in items { state = step(state, item)?; }`
abbrev pub try_fold {ℓ κ} :
    {S : Type ℓ} {A : Type κ} → (S → A → Result Code S) → S → List A → Result Code S
try_fold step s [] = ok s
try_fold step s (x ∷ xs) = step s x >>= λ t. try_fold step t xs

-- What a step keeps where it succeeds, the loop keeps; `P` may speak of the items still to come.
pub try_fold_inv {ℓ κ μ} :
    {S : Type ℓ} {A : Type κ} (step : S → A → Result Code S) (P : S → List A → Type μ)
    → ((s t : S) (x : A) (xs : List A) → P s (x ∷ xs) → step s x ≡ ok t → P t xs)
    → (xs : List A) (s t : S) → P s xs
    → try_fold step s xs ≡ ok t
    → P t []
try_fold_inv step P keep [] s t p h = subst (λ u. P u []) (cc) p
try_fold_inv step P keep (x ∷ xs) s t p h =
    let (u, first, rest) = >>=-eq-ok (step s x) (λ v. try_fold step v xs) h in
    try_fold_inv step P keep xs u t (keep s u x xs p first) rest
