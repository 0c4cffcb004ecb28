-- ===== src/Text/Paths/Laws.antt =====
-- The components of a path that is not absolute hold no root.
use secureflow.Prelude.{ℕ, ◌≡◌, refl, Bool, true, false, ◌||◌, List, [], ◌∷◌, ◌++◌, arith, any}
use secureflow.Text.Paths.{
  Component, root_dir, component, components_from, first_component, leading, split_slash,
  components, is_absolute,
}

abbrev pub is_root_dir : Component → Bool
is_root_dir root_dir = true
is_root_dir _ = false

any-append {ℓ} :
    {A : Type ℓ} (p : A → Bool) (xs ys : List A) → any p (xs ++ ys) ≡ (any p xs || any p ys)
any-append p [] ys = refl
any-append p (x ∷ xs) ys = ground (arith, any-append p xs ys)

component_relative : (part : List ℕ) → any is_root_dir (component part) ≡ false
unfolding component
component_relative [] = refl
component_relative (c ∷ []) = ground arith
component_relative (c ∷ d ∷ []) = ground arith
component_relative (c ∷ d ∷ e ∷ part) = refl

first_component_relative : (part : List ℕ) → any is_root_dir (first_component part) ≡ false
unfolding first_component
first_component_relative [] = refl
first_component_relative (c ∷ []) = ground arith
first_component_relative (c ∷ d ∷ []) = ground arith
first_component_relative (c ∷ d ∷ e ∷ part) = refl

components_from_relative : (parts : List (List ℕ)) → any is_root_dir (components_from parts) ≡ false
unfolding components_from
components_from_relative [] = refl
components_from_relative (part ∷ parts) = ground (
  arith,
  any-append is_root_dir (component part) (components_from parts),
  component_relative part,
  components_from_relative parts,
)

leading_relative : (parts : List (List ℕ)) → any is_root_dir (leading parts) ≡ false
unfolding leading
leading_relative [] = refl
leading_relative (part ∷ parts) = ground (
  arith,
  any-append is_root_dir (first_component part) (components_from parts),
  first_component_relative part,
  components_from_relative parts,
)

pub components_relative :
    (value : List ℕ) → is_absolute value ≡ false → any is_root_dir (components value) ≡ false
unfolding components
components_relative value h = rw h (leading_relative (split_slash value))
