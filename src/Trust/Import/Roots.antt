-- ===== src/Trust/Import/Roots.antt =====
-- `Session::import_roots` of crates/secureflow-knowledge/src/catalog_trust/consumer.rs.
pub mod Laws
use Prim.Native.Nat.{compare}
use mathlib.Core.List.{reverse}
use secureflow.Prelude.{
  true, false, ℕ, ◌+◌, ◌^◌, Bool, ◌&&◌, not, Option, none, some, List, [], ◌∷◌, ◌++◌, ltb, leb,
  ◌==◌, length, all, is_empty, if◌then◌else◌, ok, err,
}
use secureflow.Prelude.Sorting.{sort_by}
use secureflow.Text.{Text, lit, text_eq, strip_prefix, is_ascii_digit}
use secureflow.Text.Format.{decimal}
use secureflow.Text.Format.Decimal.{read_decimal}
use secureflow.Trust.Errors.{Code, Tried, require, or_error}
use secureflow.Trust.Json.{Value, at}
use secureflow.Trust.Wire.{canonical, number, u32_max, envelope}
use secureflow.Trust.Wire.Keys.{root_profile, strict_signers}
use secureflow.Trust.Policy.{Host, Event}
use secureflow.Trust.Checks.{current_root, tuf_update, expiry}
use secureflow.Trust.Session.{
  Session, Action, ◌>>=◌, ◌>>◌, pure, asks, lift, fold_action, save, read_metadata,
}

-- An entry that `read_dir` yields: an error, a name that is not UTF-8, or a name.
pub data Entry : Type 0 where
  unreadable unnamed : Entry
  named : Text → Entry

-- A directory of metadata: whether its path is a checked one, its entries if it can be listed, and
-- its regular files by their names.
pub record Directory : Type 0 where
  pub is_checked : Bool
  pub listing : Option (List Entry)
  pub file : Text → Option Text

abbrev reversed : Option Text → Option Text
reversed none = none
reversed (some s) = some (reverse s)

unfoldable pub strip_suffix : Text → Text → Option Text
strip_suffix suffix s = reversed (strip_prefix (reverse suffix) (reverse s))

-- `str::parse::<u64>`: an optional plus sign, then decimal digits.
abbrev without_plus : Text → Text
without_plus [] = []
without_plus (c ∷ s) = if c == b'+' then s else c ∷ s

unfoldable pub parse_u64 : Text → Option ℕ
parse_u64 s =
    let digits = without_plus s in
    if not (is_empty digits) && all is_ascii_digit digits && ltb (read_decimal 0 digits) (2 ^ 64)
    then some (read_decimal 0 digits)
    else none

unfoldable pub root_version : Text → Option ℕ
root_version stem = elim (parse_u64 stem) [
  | none ↦ none
  | some version ↦
      if ltb 0 version && leb version u32_max && text_eq stem (decimal version)
      then some version
      else none
]

-- The retained root must not change under its version.
unfoldable pub check_retained : Host → Value → Text → Action (Unit {0})
check_retained host root bytes = do
  seen ← lift (envelope host.outside bytes (lit "root"))
  mine ← lift (canonical host.outside (at seen "signed"))
  retained ← lift (canonical host.outside (at root "signed"))
  lift (require (text_eq mine retained) Code.equivocation)

-- One entry that carries a root's name: a later version is noted, the current one compared.
unfoldable pub note_root : Host → Directory → Value → ℕ → Text → List ℕ → ℕ → Action (List ℕ)
note_root host dir root current name versions version =
    if ltb current version
    then pure (version ∷ versions)
    else if version == current
    then (do
      bytes ← read_metadata (dir.file name) 65_536
      check_retained host root bytes
      pure versions)
    else pure versions

unfoldable pub note_stem :
    Host → Directory → Value → ℕ → List ℕ → Text → Option Text → Action (List ℕ)
note_stem host dir root current versions name none = pure versions
note_stem host dir root current versions name (some stem) =
    lift (or_error Code.format (root_version stem))
    >>= note_root host dir root current name versions

abbrev pub name_of : Entry → Tried Text
name_of Entry.unreadable = err Code.filesystem
name_of Entry.unnamed = err Code.format
name_of (Entry.named name) = ok name

-- One round of the loop over the entries, with their number and the versions so far.
unfoldable pub note_entry : Host → Directory → Value → ℕ → ℕ × List ℕ → Entry → Action (ℕ × List ℕ)
note_entry host dir root current (entries, versions) entry = do
  lift (require (leb (entries + 1) 512) Code.format)
  name ← lift (name_of entry)
  let stem = strip_suffix (lit ".root.json") name
  versions' ← note_stem host dir root current versions name stem
  pure (entries + 1, versions')

abbrev pub with_root : Session → Text → Session
with_root s bytes = record s { state = record s.state { roots = s.state.roots ++ (bytes ∷ []) } }

abbrev pub push_text : Host → Text → Bool → Action (Unit {0})
push_text host bytes false s = (err Code.format, s)
push_text host bytes true s = save host (with_root s bytes)

unfoldable pub push_root : Host → Text → Action (Unit {0})
push_root host bytes = push_text host bytes (host.is_utf8 bytes)

-- The root, the database and the version that the loop over the transitions carries.
pub record Cursor : Type 0 where
  pub root : Value
  pub db : List Event
  pub current : ℕ

unfoldable pub root_file : ℕ → Text
root_file version = decimal version ++ lit ".root.json"

-- One transition to the next root, signed by the old keys and by its own.
unfoldable pub import_root : Host → Directory → Cursor → ℕ → Action Cursor
import_root host dir c version = do
  lift (require (c.current + 1 == version) Code.rollback)
  bytes ← read_metadata (dir.file (root_file version)) 65_536
  next ← lift (envelope host.outside bytes (lit "root"))
  lift (root_profile host.outside next)
  found ← lift (number (at next "signed") (lit "version") u32_max)
  lift (require (found == version) Code.rollback)
  lift (strict_signers host.outside c.root next (lit "root")) >>= λ _. pure tt
  lift (strict_signers host.outside next next (lit "root")) >>= λ _. pure tt
  db ← lift (tuf_update host c.db (Event.update_root bytes))
  push_root host bytes
  pure (record { root = next; db = db; current = version })

unfoldable pub import_roots : Host → Directory → Action Value
import_roots host dir = do
  lift (require dir.is_checked Code.filesystem)
  (root, db) ← asks (λ s. current_root host s.state)
  current ← lift (number (at root "signed") (lit "version") u32_max)
  entries ← lift (or_error Code.filesystem dir.listing)
  noted ← fold_action (note_entry host dir root current) (0, []) entries
  let versions = sort_by compare noted.1
  lift (require (leb (length versions) 128) Code.format)
  last ←
      fold_action (import_root host dir) (record { root = root; db = db; current = current })
        versions
  asks (λ s. expiry host s.state s.clock last.root (lit "root"))
  pure last.root
