-- ===== src/Trust/Import/Roots/Laws.antt =====
-- `import_roots` of crates/secureflow-knowledge/src/catalog_trust/consumer.rs only moves a session on.
use secureflow.Prelude.{refl, true, none, some, false, arith, inl, [], ◌∷◌}
use secureflow.Trust.Session.Forward.{IsForward-refl, IsLater-trans, IsLater-refl, IsLater}
use secureflow.Text.{Text}
use secureflow.Trust.Json.{Value}
use secureflow.Trust.Policy.{Host}
use secureflow.Trust.Session.Steps.{
  save-Advances, read_metadata-Advances, if-Advances, fold_action-Advances, pure-Advances,
  asks-Advances, Advances, >>=-Advances, lift-Advances,
}
use secureflow.Trust.Import.Roots.{
  with_root, Option, Entry, List, ℕ, Cursor, push_text, Directory, push_root, note_stem, note_root,
  note_entry, import_roots, import_root, Session, Bool, check_retained,
}

module _ (host : Host) where
  check_retained-Advances :
      (root : Value) (bytes : Text) → Advances host (check_retained host root bytes)
  unfolding check_retained
  check_retained-Advances root bytes = search (>>=-Advances host, lift-Advances host)

  note_root-Advances :
      (dir : Directory) (root : Value) (current : ℕ) (name : Text) (versions : List ℕ) (version : ℕ)
      → Advances host (note_root host dir root current name versions version)
  unfolding note_root
  note_root-Advances dir root current name versions version = search (
    if-Advances host,
    >>=-Advances host,
    pure-Advances host,
    read_metadata-Advances host,
    check_retained-Advances,
  )

  note_stem-Advances :
      (dir : Directory) (root : Value) (current : ℕ) (versions : List ℕ) (name : Text)
      (stem : Option Text)
      → Advances host (note_stem host dir root current versions name stem)
  unfolding note_stem
  note_stem-Advances dir root current versions name none = pure-Advances host versions
  note_stem-Advances dir root current versions name (some stem) =
      search (>>=-Advances host, lift-Advances host, note_root-Advances)

  note_entry-Advances :
      (dir : Directory) (root : Value) (current : ℕ) (noted : ℕ × List ℕ) (entry : Entry)
      → Advances host (note_entry host dir root current noted entry)
  unfolding note_entry
  note_entry-Advances dir root current (entries, versions) entry =
      search (>>=-Advances host, lift-Advances host, pure-Advances host, note_stem-Advances)

  with_root-Later : (s : Session) (bytes : Text) → IsLater host s (with_root s bytes)
  with_root-Later s bytes =
      let same = IsForward-refl host s.state in
      record {
        clock = refl;
        mutating = refl;
        state = record {
          policy = refl;
          floors = same.floors;
          roles = same.roles;
          roots = (bytes ∷ [], refl);
          generation = same.generation;
        };
        stored = inl refl;
        time = λ latest h. (
          latest,
          record { now = h.now; clock = h.clock; saved = h.saved; before = h.before },
          omega arith,
        );
      }

  push_text-Advances : (bytes : Text) (b : Bool) → Advances host (push_text host bytes b)
  push_text-Advances bytes false s = IsLater-refl host s
  push_text-Advances bytes true s =
      IsLater-trans host (with_root-Later s bytes) (save-Advances host (with_root s bytes))

  push_root-Advances : (bytes : Text) → Advances host (push_root host bytes)
  unfolding push_root
  push_root-Advances bytes = push_text-Advances bytes (host.is_utf8 bytes)

  import_root-Advances :
      (dir : Directory) (c : Cursor) (version : ℕ) → Advances host (import_root host dir c version)
  unfolding import_root
  import_root-Advances dir c version =
      search
        (
          >>=-Advances host,
          lift-Advances host,
          pure-Advances host,
          read_metadata-Advances host,
          push_root-Advances,
        )
        depth 24

  -- Whatever the directory holds, and however it ends, an import of roots moves the session on.
  pub import_roots-Advances : (dir : Directory) → Advances host (import_roots host dir)
  unfolding import_roots
  import_roots-Advances dir =
      search
        (
          >>=-Advances host,
          lift-Advances host,
          asks-Advances host,
          pure-Advances host,
          fold_action-Advances host,
          note_entry-Advances dir,
          import_root-Advances dir,
        )
        depth 24
