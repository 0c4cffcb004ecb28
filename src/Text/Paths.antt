-- ===== src/Text/Paths.antt =====
-- `std::path::Path` on Unix: `components`, and `str::split` by '/'.
pub mod Laws
use secureflow.Prelude.{ℕ, Bool, true, false, ◌&&◌, List, [], ◌∷◌, ◌++◌, ◌==◌, if◌then◌else◌}

pub data Component : Type 0 where
  root_dir : Component
  cur_dir : Component
  parent_dir : Component
  normal : List ℕ → Component

-- Adds a byte to the first part.
abbrev pub grow : ℕ → List (List ℕ) → List (List ℕ)
grow c [] = (c ∷ []) ∷ []
grow c (part ∷ parts) = (c ∷ part) ∷ parts

-- `value.split('/')`, never empty
unfoldable pub split_slash : List ℕ → List (List ℕ)
split_slash [] = [] ∷ []
split_slash (c ∷ s) = let rest = split_slash s in if c == b'/' then [] ∷ rest else grow c rest

-- A part behind the first: empty parts and `.` vanish.
component : List ℕ → List Component
component [] = []
component (c ∷ []) = if c == b'.' then [] else normal (c ∷ []) ∷ []
component (c ∷ d ∷ []) =
    if c == b'.' && d == b'.' then parent_dir ∷ [] else normal (c ∷ d ∷ []) ∷ []
component part = normal part ∷ []

components_from : List (List ℕ) → List Component
components_from [] = []
components_from (part ∷ parts) = component part ++ components_from parts

-- The first part: empty for an absolute path, and `.` is kept.
first_component : List ℕ → List Component
unfolding component
first_component [] = []
first_component (c ∷ []) = if c == b'.' then cur_dir ∷ [] else normal (c ∷ []) ∷ []
first_component part = component part

leading : List (List ℕ) → List Component
unfolding components_from first_component
leading [] = []
leading (part ∷ parts) = first_component part ++ components_from parts

abbrev pub is_absolute : List ℕ → Bool
is_absolute [] = false
is_absolute (c ∷ _) = c == b'/'

unfoldable pub components : List ℕ → List Component
unfolding leading split_slash
components s =
    if is_absolute s then root_dir ∷ components_from (split_slash s) else leading (split_slash s)

abbrev pub is_parent_dir : Component → Bool
is_parent_dir parent_dir = true
is_parent_dir _ = false
