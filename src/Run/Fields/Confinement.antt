-- ===== src/Run/Fields/Confinement.antt =====
-- A relative path that passes `validate_relative_path` names something below whatever directory it
-- is joined to.
use secureflow.Prelude.{String, ◌≡◌, refl, false, List, [], ◌∷◌, ◌++◌, arith, any, ok, sym, ◌∙◌}
use mathlib.Core.List.{append_assoc}
use secureflow.Text.{Text}
use secureflow.Text.Paths.{
  Component, root_dir, cur_dir, parent_dir, normal, components, is_parent_dir,
}
use secureflow.Text.Paths.Laws.{is_root_dir, components_relative}
use secureflow.Run.Fields.{validate_relative_path}

abbrev up : List Text → List Text
up [] = []
up (_ ∷ dirs) = dirs

-- Where a walk along the components ends. A directory is the names above it, the innermost first.
abbrev pub walk : List Component → List Text → List Text
walk [] dirs = dirs
walk (root_dir ∷ rest) dirs = walk rest []
walk (cur_dir ∷ rest) dirs = walk rest dirs
walk (parent_dir ∷ rest) dirs = walk rest (up dirs)
walk (normal name ∷ rest) dirs = walk rest (name ∷ dirs)

-- The walk adds names in front of `base` and takes none of its names away.
abbrev pub EndsBelow : List Component → List Text → Type 0
EndsBelow path base = (below : List Text) × (walk path base ≡ below ++ base)

walk-EndsBelow :
    (path : List Component) (base : List Text)
    → any is_root_dir path ≡ false
    → any is_parent_dir path ≡ false
    → EndsBelow path base
walk-EndsBelow [] base r p = ([], refl)
walk-EndsBelow (root_dir ∷ rest) base r p = cc
walk-EndsBelow (cur_dir ∷ rest) base r p = walk-EndsBelow rest base r p
walk-EndsBelow (parent_dir ∷ rest) base r p = cc
walk-EndsBelow (normal name ∷ rest) base r p =
    let ih = walk-EndsBelow rest (name ∷ base) r p in
    (ih.0 ++ (name ∷ []), ih.1 ∙ sym (append_assoc ih.0 (name ∷ []) base))

-- A path that `validate_relative_path` accepts, walked from any directory, ends at or below that
-- directory.
pub validate_relative_path-EndsBelow :
    (value : Text) (field : String) (base : List Text)
    → validate_relative_path value field ≡ ok tt
    → EndsBelow (components value) base
unfolding validate_relative_path
validate_relative_path-EndsBelow value field base h =
    walk-EndsBelow (components value) base (components_relative value (ground arith)) (ground arith)
