-- ===== src/Trust/Wire/Keys/Quorum.antt =====
-- What a successful `strict_signers` of crates/secureflow-knowledge/src/catalog_trust/wire.rs says.
use secureflow.Trust.Json.Laws.{parse-IsStrict, IsStrict}
use mathlib.Core.Option.{some-injective}
use mathlib.Core.List.{Mem, mem-cons_self, mem-cons_of_mem}
use secureflow.Prelude.{
  ok_injective, leb, if◌then◌else◌, ◌∙◌, Result-cases, ◌⊎◌, ℕ, ◌≤◌, ◌≡◌, ◌≢◌, Bool, true, false,
  some, List, [], ◌∷◌, length, any, All, arith, ok, >>=-eq-ok, >>-eq-ok, Bool-cases, inl, inr,
  leb_iff, subst, sym,
}
use secureflow.Prelude.Sorting.{sort_by, insert}
use secureflow.Prelude.Sorting.Laws.{All-insert, All-sort_by, length-sort_by}
use secureflow.Text.{Text, lit, text_eq, text_eq_iff}
use secureflow.Text.Compare.{cmp}
use secureflow.Run.Unique.{KeysUnique, IsNew, All-New-cons, All-New-nil}
use secureflow.Trust.Errors.{
  Tried, check, Code, or_error, require, try_fold, try_fold_inv, require-eq-ok, or_error-eq-ok,
}
use secureflow.Trust.Json.{parse, Value, as_array, is_text, at, index}
use secureflow.Trust.Wire.{
  limit_of, signed_profile, Outside, canonical, string_field, number, envelope, signature_profile,
  signatures_profile,
}
use secureflow.Trust.Wire.Keys.{check_signature, accept_signature, verifies, strict_signers}

-- The key identifier of a signature object; empty where it is missing.
pub keyid : Value → Text
keyid sig = elim (string_field sig (lit "keyid")) [ ok id ↦ id | _ ↦ [] ]

abbrev pub same : Text → Text
same id = id

-- A key of the role, with a signature among those of the document that verifies under it.
pub record IsSigner (out : Outside) (root : Value) (ids sigs : List Value) (preimage id : Text)
    : Type 0 where
  pub listed : any (λ v. is_text v id) ids ≡ true
  pub sig : Value
  pub among : Mem sig sigs
  pub named : string_field sig (lit "keyid") ≡ ok id
  pub text : Text
  pub signed : string_field sig (lit "sig") ≡ ok text
  pub verified : verifies out root preimage id text ≡ ok true

unique-insert :
    (x : Text) (l : List Text)
    → All (λ y. x ≢ y) l
    → KeysUnique same l
    → KeysUnique same (insert cmp x l)
unfolding insert
unique-insert x [] h u = (tt, tt)
unique-insert x (y ∷ l) h u =
    ground (
      arith,
      h,
      u,
      All-insert cmp (λ z. y ≢ z) x l (λ e. h.0 (sym e)) u.0,
      unique-insert x l h.1 u.1,
    )

unique-sort_by : (l : List Text) → KeysUnique same l → KeysUnique same (sort_by cmp l)
unfolding sort_by
unique-sort_by [] u = tt
unique-sort_by (x ∷ l) u =
    unique-insert x (sort_by cmp l) (All-sort_by cmp (λ y. x ≢ y) l u.0) (unique-sort_by l u.1)

pub apart_of_new :
    (k : Text) (seen : List Text) → any (text_eq k) seen ≡ false → All (λ y. k ≢ y) seen
apart_of_new k [] h = tt
apart_of_new k (s ∷ seen) h =
    ((λ e. ground (arith, h, text_eq_iff k s, e)), apart_of_new k seen (ground (arith, h)))

keyid_lem : (sig : Value) {id : Text} → string_field sig (lit "keyid") ≡ ok id → keyid sig ≡ id
unfolding keyid
keyid_lem sig e = ground (arith, e)

signature_profile-eq-ok :
    (seen : List Text) (sig : Value) {t : List Text}
    → signature_profile seen sig ≡ ok t
    → (t ≡ keyid sig ∷ seen) × IsNew keyid seen sig
unfolding signature_profile keyid
signature_profile-eq-ok seen sig h = ground arith

-- The loop over the signatures leaves no two of one key.
signatures-Unique :
    (seen : List Text) (sigs : List Value) {t : List Text}
    → try_fold signature_profile seen sigs ≡ ok t
    → KeysUnique keyid sigs × All (IsNew keyid seen) sigs
signatures-Unique seen [] h = (tt, tt)
signatures-Unique seen (sig ∷ sigs) h =
    let (u, first, rest) = >>=-eq-ok (signature_profile seen sig) _ h in
    let step = signature_profile-eq-ok seen sig first in
    let ih = signatures-Unique (keyid sig ∷ seen) sigs (rw step.0 at rest) in
    let new = (All-New-cons keyid (keyid sig) seen sigs).0 ih.1 in ((new.0, ih.0), (step.1, new.1))

pub envelope-profile :
    (out : Outside) (bytes role : Text) {v : Value}
    → envelope out bytes role ≡ ok v
    → (signed_profile out (at v "signed") role ≡ ok tt) × (signatures_profile v ≡ ok tt)
unfolding envelope
envelope-profile out bytes role {v} h = ground arith

pub envelope-IsStrict :
    (out : Outside) (bytes role : Text) {v : Value} → envelope out bytes role ≡ ok v → IsStrict 0 v
unfolding envelope
envelope-IsStrict out bytes role {v} h =
    let (limit, _, a) = >>=-eq-ok (or_error Code.format (limit_of role)) _ h in
    let (w, x, b) = >>=-eq-ok (parse out.read_json bytes limit) _ a in
    let same_value : w ≡ v = ground (arith, b) in
    subst (IsStrict 0) same_value (parse-IsStrict out.read_json bytes limit x).0

-- The keys of the document's signatures are distinct once its envelope is accepted.
envelope-Unique :
    (out : Outside) (bytes role : Text) {v : Value} {sigs : List Value}
    → envelope out bytes role ≡ ok v
    → as_array (at v "signatures") ≡ some sigs
    → KeysUnique keyid sigs
unfolding signatures_profile
envelope-Unique out bytes role {v} {sigs} h e =
    let (xs, found, a) =
      >>=-eq-ok (or_error Code.format (as_array (at v "signatures"))) _
        (envelope-profile out bytes role h).1 in
    let same_list : some xs ≡ some sigs = sym (or_error-eq-ok Code.format _ found) ∙ e in
    let b = >>-eq-ok _ _ a in
    subst (KeysUnique keyid) (some-injective xs sigs same_list) (loop xs (>>-eq-ok _ _ b.1).0)
  where
    loop :
        (ys : List Value) → check (try_fold signature_profile [] ys) ≡ ok tt → KeysUnique keyid ys
    loop ys k = elim (Result-cases (try_fold signature_profile [] ys)) [
      | inl (t, e) ↦ (signatures-Unique [] ys e).0
      | inr (c, e) ↦ absurd (ground (arith, k, e))
    ]

All-Mem : (l xs : List Value) → ((x : Value) → Mem x l → Mem x xs) → All (λ x. Mem x xs) l
All-Mem [] xs h = tt
All-Mem (x ∷ l) xs h = (h x mem-cons_self, All-Mem l xs (λ y m. h y (mem-cons_of_mem x m)))

module _ (out : Outside) (root : Value) (ids sigs : List Value) (preimage : Text) where
  abbrev IsAccepted : List Text → List Value → Type 0
  IsAccepted accepted rest =
      All (IsSigner out root ids sigs preimage) accepted
      × KeysUnique same accepted
      × All (IsNew keyid accepted) rest
      × KeysUnique keyid rest
      × All (λ sig. Mem sig sigs) rest

  check_signature-cases :
      (id : Text) (accepted : List Text) (sig : Value) {t : List Text}
      → check_signature out root preimage id accepted sig ≡ ok t
      → (t ≡ accepted)
        ⊎ ((t ≡ id ∷ accepted)
            × (text : Text) × (string_field sig (lit "sig") ≡ ok text)
            × (verifies out root preimage id text ≡ ok true))
  unfolding check_signature
  check_signature-cases id accepted sig {t} e =
      let (text, x, a) = >>=-eq-ok (string_field sig (lit "sig")) _ e in
      let (valid, v, b) = >>=-eq-ok (verifies out root preimage id text) _ a in
      by_value text x valid v b
    where
      by_value :
          (text : Text)
          → string_field sig (lit "sig") ≡ ok text
          → (valid : Bool) → verifies out root preimage id text ≡ ok valid
          → ◌≡◌ {A = Tried (List Text)} (ok (if valid then id ∷ accepted else accepted)) (ok t)
          → (t ≡ accepted)
            ⊎ ((t ≡ id ∷ accepted)
                × (text : Text) × (string_field sig (lit "sig") ≡ ok text)
                × (verifies out root preimage id text ≡ ok true))
      by_value text x true v b = inr (cc b, text, x, v)
      by_value text x false v b = inl (cc b)

  accept_signature-cases :
      (accepted : List Text) (sig : Value) {t : List Text}
      → Mem sig sigs
      → accept_signature out root ids preimage accepted sig ≡ ok t
      → (t ≡ accepted)
        ⊎ ((t ≡ keyid sig ∷ accepted) × IsSigner out root ids sigs preimage (keyid sig))
  unfolding accept_signature
  accept_signature-cases accepted sig {t} among e =
      let (id, found, b) = >>=-eq-ok (string_field sig (lit "keyid")) _ e in
      let key = keyid_lem sig found in
      elim (Bool-cases (any (λ v. is_text v id) ids)) [
        | inr unlisted ↦ inl (ground (arith, b, unlisted))
        | inl listed ↦
            let taken : check_signature out root preimage id accepted sig ≡ ok t =
              ground (arith, b, listed) in
            elim (check_signature-cases id accepted sig taken) [
              | inl kept ↦ inl kept
              | inr (grown, text, x, v) ↦ inr (
                  rw key (
                    grown,
                    record {
                      listed = listed;
                      sig = sig;
                      among = among;
                      named = found;
                      text = text;
                      signed = x;
                      verified = v;
                    },
                  ))
            ]
      ]

  accept-IsAccepted :
      (accepted t : List Text) (sig : Value) (rest : List Value)
      → IsAccepted accepted (sig ∷ rest)
      → accept_signature out root ids preimage accepted sig ≡ ok t
      → IsAccepted t rest
  accept-IsAccepted accepted t sig rest h e = elim (accept_signature-cases accepted sig h.4.0 e) [
    | inl kept ↦ rw kept (h.0, h.1, h.2.1, h.3.1, h.4.1)
    | inr (grown, signer) ↦ rw grown (
      (signer, h.0),
      (apart_of_new (keyid sig) accepted h.2.0, h.1),
      (All-New-cons keyid (keyid sig) accepted rest).1 (h.3.0, h.2.1),
      h.3.1,
      h.4.1,
    )
  ]

-- A quorum: at least as many signers as the role's threshold, all different, each with a key that
-- the root lists for the role and a signature in the document, of its signed part, that verifies under
-- that key.
unfoldable pub IsQuorum : Outside → Value → Value → Text → List Text → Type 0
IsQuorum out root metadata role signers =
    (ids : List Value) × (sigs : List Value) × (preimage : Text) × (threshold : ℕ) × (as_array
        (at (index (at (at root "signed") "roles") role) "keyids")
      ≡ some ids)
    × (as_array (at metadata "signatures") ≡ some sigs)
    × (canonical out (at metadata "signed") ≡ ok preimage)
    × (number (index (at (at root "signed") "roles") role) (lit "threshold") 32 ≡ ok threshold)
    × (threshold ≤ length signers)
    × KeysUnique same signers
    × All (IsSigner out root ids sigs preimage) signers

-- When strict_signers succeeds on a document whose envelope was accepted, the signers that it
-- returns are a quorum: no fewer than the threshold of the role, all different, each listed for the
-- role, each with a signature in the document that verifies under its key of the root.
pub strict_signers-IsQuorum :
    (out : Outside) (root metadata : Value) (bytes role : Text) {signers : List Text}
    → envelope out bytes role ≡ ok metadata
    → strict_signers out root metadata role ≡ ok signers
    → IsQuorum out root metadata role signers
unfolding strict_signers IsQuorum
strict_signers-IsQuorum out root metadata bytes role {signers} env h =
    let r = index (at (at root "signed") "roles") role in
    let (ids, i, a) = >>=-eq-ok (or_error Code.signature (as_array (at r "keyids"))) _ h in
    let (threshold, n, b) = >>=-eq-ok (number r (lit "threshold") 32) _ a in
    let (preimage, p, c) = >>=-eq-ok (canonical out (at metadata "signed")) _ b in
    let (sigs, s, d) = >>=-eq-ok (or_error Code.format (as_array (at metadata "signatures"))) _ c in
    let (accepted, f, g) =
      >>=-eq-ok (try_fold (accept_signature out root ids preimage) [] sigs) _ d in
    let unique = envelope-Unique out bytes role env (or_error-eq-ok Code.format _ s) in
    let all =
      try_fold_inv (accept_signature out root ids preimage) (IsAccepted out root ids sigs preimage)
        (λ s t x xs. accept-IsAccepted out root ids sigs preimage s t x xs) sigs [] accepted
        (tt, tt, All-New-nil keyid sigs, unique, All-Mem sigs sigs (λ x m. m)) f in
    let k =
      >>-eq-ok (require (leb threshold (length accepted)) Code.signature)
        (ok (sort_by cmp accepted)) g in
    let enough = (leb_iff threshold (length accepted)).0 (require-eq-ok _ Code.signature k.0) in
    let sorted : sort_by cmp accepted ≡ signers = ok_injective k.1 in
    rw (← sorted) (
      ids,
      sigs,
      preimage,
      threshold,
      or_error-eq-ok Code.signature _ i,
      or_error-eq-ok Code.format _ s,
      p,
      n,
      omega (arith, enough, length-sort_by cmp accepted),
      unique-sort_by accepted all.1,
      All-sort_by cmp (IsSigner out root ids sigs preimage) accepted all.0,
    )
