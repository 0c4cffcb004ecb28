-- ===== src/Trust/Map.antt =====
-- `BTreeMap<String, _>`, and `serde_json::Map`, as the list of its entries in the order of the keys.
use Prim.Native.Nat.{Ordering}
use secureflow.Prelude.{
  refl, ◌+◌, length, ap, sym, ◌∙◌, All-map, subst, ◌≡◌, Bool, Option, none, some, List, [], ◌∷◌,
  if◌then◌else◌, is_some, arith, All, Bool-cases, inl, inr, false,
}
use secureflow.Text.{Text, text_eq, text_eq_iff, text_eq_refl}
use secureflow.Text.Compare.{cmp}

abbrev pub Map {ℓ} : Type ℓ → Type ℓ
Map A = List (Text × A)

text_eq_flip : (s t : Text) → text_eq s t ≡ false → text_eq t s ≡ false
text_eq_flip s t h = elim (Bool-cases (text_eq t s)) [
  | inl e ↦ let same : t ≡ s = (text_eq_iff t s).0 e in absurd (cc (h, text_eq_refl s, same))
  | inr e ↦ e
]

module _ {A : Type 0} where
  unfoldable pub lookup : Text → Map A → Option A
  lookup k [] = none
  lookup k ((key, a) ∷ m) = if text_eq k key then some a else lookup k m

  -- `BTreeMap::insert`: the old value of the key is replaced.
  unfoldable pub insert : Text → A → Map A → Map A
  insert k a [] = (k, a) ∷ []
  insert k a ((key, b) ∷ m) =
      if text_eq k key
      then (k, a) ∷ m
      else elim (cmp k key) [ Ordering.lt ↦ (k, a) ∷ (key, b) ∷ m | _ ↦ (key, b) ∷ insert k a m ]

  abbrev pub contains_key : Text → Map A → Bool
  contains_key k m = is_some (lookup k m)

  pub lookup-insert_self : (k : Text) (a : A) (m : Map A) → lookup k (insert k a m) ≡ some a
  unfolding lookup insert
  lookup-insert_self k a [] = ground (arith, text_eq_refl k)
  lookup-insert_self k a ((key, b) ∷ m) = ground (arith, text_eq_refl k, lookup-insert_self k a m)

  pub lookup-insert_ne :
      (j k : Text) (a : A) (m : Map A) → text_eq j k ≡ false → lookup j (insert k a m) ≡ lookup j m
  unfolding lookup insert
  lookup-insert_ne j k a [] h = ground arith
  lookup-insert_ne j k a ((key, b) ∷ m) h = elim (Bool-cases (text_eq k key)) [
    | inl e ↦
        let same : k ≡ key = (text_eq_iff k key).0 e in
        rw (← same) (rw (text_eq_refl k) (ground (arith, h)))
    | inr e ↦ rw e (ground (arith, h, lookup-insert_ne j k a m h))
  ]

  -- What holds of every value, and of the value that is put in, holds after it.
  pub All-insert {κ} :
      (P : Text × A → Type κ) (k : Text) (a : A) (m : Map A)
      → P (k, a)
      → All P m
      → All P (insert k a m)
  unfolding insert
  All-insert P k a [] p h = (p, tt)
  All-insert P k a (e ∷ m) p h = elim (Bool-cases (text_eq k e.0)) [
    | inl same ↦ rw same (p, h.1)
    | inr other ↦
        rw other
          (elim (cmp k e.0)
            as (λ o. All P (elim o [ Ordering.lt ↦ (k, a) ∷ e ∷ m | _ ↦ e ∷ insert k a m ])) [
              | Ordering.lt ↦ (p, h)
              | Ordering.eq ↦ (h.0, All-insert P k a m p h.1)
              | Ordering.gt ↦ (h.0, All-insert P k a m p h.1)
            ])
  ]

  pub All-lookup {κ} :
      (P : A → Type κ) (k : Text) (m : Map A) {a : A}
      → All (λ e. P e.1) m
      → lookup k m ≡ some a
      → P a
  unfolding lookup
  All-lookup P k [] h e = absurd (cc)
  All-lookup P k ((key, b) ∷ m) {a} h e = elim (Bool-cases (text_eq k key)) [
    | inl same ↦ let found : some b ≡ some a = rw same at e in subst P (cc) h.0
    | inr other ↦ All-lookup P k m h.1 (rw other at e)
  ]

  -- No key twice.
  abbrev pub IsDistinct : Map A → Type 0
  IsDistinct [] = Unit
  IsDistinct ((k, _) ∷ m) = (lookup k m ≡ none) × IsDistinct m

  pub insert-IsDistinct :
      (k : Text) (a : A) (m : Map A) → lookup k m ≡ none → IsDistinct m → IsDistinct (insert k a m)
  unfolding lookup insert
  insert-IsDistinct k a [] h d = (h, tt)
  insert-IsDistinct k a ((key, b) ∷ m) h d = elim (Bool-cases (text_eq k key)) [
    | inl e ↦ absurd (ground (arith, h, e))
    | inr e ↦
        let rest : lookup k m ≡ none = rw e at h in
        let other : text_eq key k ≡ false = text_eq_flip k key e in
        ground
          (arith, d, e, rest, h, insert-IsDistinct k a m rest d.1, lookup-insert_ne key k a m other)
  ]

  pub All-lookup_self : (m : Map A) → IsDistinct m → All (λ e. lookup e.0 m ≡ some e.1) m
  unfolding lookup
  All-lookup_self [] d = tt
  All-lookup_self ((k, a) ∷ m) d =
      (ground (arith, text_eq_refl k), All-map m (λ e h. later e h) (All-lookup_self m d.1))
    where
      none_some : {b : A} → ◌≡◌ {A = Option A} none (some b) → ⊥
      none_some p = cc p

      later :
          (e : Text × A)
          → lookup e.0 m ≡ some e.1
          → (if text_eq e.0 k then some a else lookup e.0 m) ≡ some e.1
      later e h = elim (Bool-cases (text_eq e.0 k)) [
        | inl same ↦
            let path : e.0 ≡ k = (text_eq_iff e.0 k).0 same in
            absurd (none_some (sym d.0 ∙ ap (λ x. lookup x m) (sym path) ∙ h))
        | inr other ↦ rw other h
      ]

  pub length-insert :
      (k : Text) (a : A) (m : Map A) → lookup k m ≡ none → length (insert k a m) ≡ length m + 1
  unfolding lookup insert
  length-insert k a [] h = refl
  length-insert k a ((key, b) ∷ m) h = elim (Bool-cases (text_eq k key)) [
    | inl e ↦ absurd (ground (arith, h, e))
    | inr e ↦
        let rest : lookup k m ≡ none = rw e at h in ground (arith, e, length-insert k a m rest)
  ]
