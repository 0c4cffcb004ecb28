-- ===== src/Prelude/Fallible.antt =====
-- Rust's `Result`, the `?` operator as bind, and the shapes of validating loops.
use mathlib.Core.Path.{◌≡◌, refl}
use mathlib.Core.Bool.{Bool, true, false}
use mathlib.Core.Logic.{◌↔◌, ◌⊎◌, inl, inr}
use mathlib.Core.Option.{Option, none, some}
use mathlib.Core.List.{List, [], ◌∷◌}
use secureflow.Prelude.Lists.{All}

pub data Result {ℓ κ} (E : Type ℓ) (A : Type κ) : Type (ℓ ⊔ κ) where
  ok : A → Result E A
  err : E → Result E A

infixl 5 ◌>>=◌ ◌>>◌
abbrev pub ◌>>=◌ {ℓ κ μ} :
    {E : Type ℓ} {A : Type κ} {B : Type μ} → Result E A → (A → Result E B) → Result E B
ok a >>= f = f a
err e >>= f = err e

abbrev pub ◌>>◌ {ℓ κ} : {E : Type ℓ} {B : Type κ} → Result E (Unit {0}) → Result E B → Result E B
ok _ >> k = k
err e >> k = err e

-- `map_err`, which is also what `#[from]` does at a `?`
abbrev pub map_err {ℓ κ μ} :
    {E : Type ℓ} {F : Type κ} {A : Type μ} → (E → F) → Result E A → Result F A
map_err f (ok a) = ok a
map_err f (err e) = err (f e)

-- `if test { return Err(error); }`
abbrev pub refuse {ℓ} : {E : Type ℓ} → Bool → E → Result E (Unit {0})
refuse true e = err e
refuse false e = ok tt

-- `if let Some(value) = option { check(value)?; }`
abbrev pub if_some {ℓ κ} :
    {E : Type ℓ} {A : Type κ} → (A → Result E (Unit {0})) → Option A → Result E (Unit {0})
if_some f none = ok tt
if_some f (some a) = f a

-- `for item in items { check(item)?; }`
abbrev pub each {ℓ κ} :
    {E : Type ℓ} {A : Type κ} → (A → Result E (Unit {0})) → List A → Result E (Unit {0})
each f [] = ok tt
each f (x ∷ xs) = f x >> each f xs

abbrev pub Passes {ℓ} : {E : Type ℓ} → Result E (Unit {0}) → Type ℓ
Passes r = r ≡ ok tt

-- What holds of the value of an optional field, if it is there.
abbrev pub WhenSome {ℓ κ} : {A : Type ℓ} → (A → Type κ) → Option A → Type κ
WhenSome P none = Unit
WhenSome P (some a) = P a

pub Result-cases {ℓ κ} :
    {E : Type ℓ} {A : Type κ} (r : Result E A) → ((a : A) × (r ≡ ok a)) ⊎ ((e : E) × (r ≡ err e))
Result-cases (ok a) = inl (a, refl)
Result-cases (err e) = inr (e, refl)

pub ok_injective {ℓ κ} :
    {E : Type ℓ} {A : Type κ} {a b : A} → ◌≡◌ {A = Result E A} (ok a) (ok b) → a ≡ b
ok_injective h = cc h

-- A `?` that is passed: what was before it is a value, on which the rest succeeds.
pub >>=-eq-ok {ℓ κ μ} :
    {E : Type ℓ} {V : Type κ} {W : Type μ} (r : Result E V) (rest : V → Result E W) {out : W}
    → r >>= rest ≡ ok out
    → (v : V) × (r ≡ ok v) × (rest v ≡ ok out)
>>=-eq-ok (ok v) rest passed = (v, refl, passed)
>>=-eq-ok (err _) rest passed = cc

pub >>-eq-ok {ℓ κ} :
    {E : Type ℓ} {B : Type κ} (m : Result E (Unit {0})) (k : Result E B) {b : B}
    → (m >> k) ≡ ok b
    → (m ≡ ok tt) × (k ≡ ok b)
>>-eq-ok (ok tt) k h = (refl, h)
>>-eq-ok (err e) k h = cc

pub >>-Passes {ℓ} :
    {E : Type ℓ} (m k : Result E (Unit {0})) → Passes (m >> k) ↔ (Passes m × Passes k)
>>-Passes (ok tt) k = (λ h. (refl, h), λ h. h.1)
>>-Passes (err e) k = (λ h. cc, λ h. cc (h.0))

-- The same where both sides are known by other statements.
pub >>-iff {ℓ κ μ} :
    {E : Type ℓ} {m k : Result E (Unit {0})} {P : Type κ} {Q : Type μ}
    → Passes m ↔ P
    → Passes k ↔ Q
    → Passes (m >> k) ↔ (P × Q)
>>-iff {m} {k} p q =
    let step = >>-Passes m k in
    ((λ h. let s = step.0 h in (p.0 s.0, q.0 s.1)), (λ h. step.1 (p.1 h.0, q.1 h.1)))

pub refuse-Passes {ℓ} : {E : Type ℓ} (b : Bool) (e : E) → Passes (refuse b e) ↔ (b ≡ false)
refuse-Passes true e = (λ h. cc, λ h. cc)
refuse-Passes false e = (λ h. refl, λ h. refl)

pub each_iff {ℓ κ} :
    {E : Type ℓ} {A : Type κ} (f : A → Result E (Unit {0})) (xs : List A)
    → Passes (each f xs) ↔ All (λ x. Passes (f x)) xs
each_iff f [] = (λ _. tt, λ _. refl)
each_iff f (x ∷ xs) =
    let step = >>-Passes (f x) (each f xs) in
    let ih = each_iff f xs in (λ h. ((step.0 h).0, ih.0 (step.0 h).1), λ h. step.1 (h.0, ih.1 h.1))

pub if_some_iff {ℓ κ} :
    {E : Type ℓ} {A : Type κ} (f : A → Result E (Unit {0})) (o : Option A)
    → Passes (if_some f o) ↔ WhenSome (λ a. Passes (f a)) o
if_some_iff f none = (λ _. tt, λ _. refl)
if_some_iff f (some a) = (λ h. h, λ h. h)

pub map_err-Passes {ℓ κ} :
    {E : Type ℓ} {F : Type κ} (f : E → F) (r : Result E (Unit {0}))
    → Passes (map_err f r) ↔ Passes r
map_err-Passes f (ok tt) = (λ _. refl, λ _. refl)
map_err-Passes f (err e) = (λ h. cc, λ h. cc)

pub ruleset passes_rules = (>>-Passes, refuse-Passes, each_iff, if_some_iff, map_err-Passes)
