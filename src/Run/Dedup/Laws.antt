-- ===== src/Run/Dedup/Laws.antt =====
-- What `deduplicate_findings` promises, and where its key falls short.
use mathlib.Core.List.{append_assoc}
use secureflow.Prelude.{
  ◌+◌, ◌≤◌, ◌≡◌, refl, Bool, true, false, ◌||◌, List, [], ◌∷◌, ◌++◌, any, All, All-map, length,
  arith, Bool-cases, inl, inr, ap, subst, sym, ◌∙◌, ◌-◌,
}
use secureflow.Text.{Text, text_eq, text_eq_refl, text_eq_iff, lit}
use secureflow.Run.Finding.{Finding}
use secureflow.Run.Dedup.{
  location_key, fingerprint, join_key, dedup_key, retain_new, deduplicate_findings,
}

abbrev is_known : List Text → Finding → Bool
is_known seen f = any (text_eq (dedup_key f)) seen

-- Some finding of the list has the key of `f`.
abbrev pub has_twin : List Finding → Finding → Bool
has_twin kept f = any (λ k. text_eq (dedup_key f) (dedup_key k)) kept

abbrev pub KeysDiffer : List Finding → Type 0
KeysDiffer [] = Unit
KeysDiffer (f ∷ fs) = All (λ g. text_eq (dedup_key g) (dedup_key f) ≡ false) fs × KeysDiffer fs

-- `kept` results from `findings` by leaving findings out.
pub data Thins : List Finding → List Finding → Type 0 where
  done : Thins [] []
  keep :
      {f : Finding} {kept findings : List Finding}
      → Thins kept findings
      → Thins (f ∷ kept) (f ∷ findings)
  drop :
      {f : Finding} {kept findings : List Finding} → Thins kept findings → Thins kept (f ∷ findings)

Thins-retain_new : (seen : List Text) (fs : List Finding) → Thins (retain_new seen fs) fs
unfolding retain_new
Thins-retain_new seen [] = done
Thins-retain_new seen (f ∷ fs) = elim (Bool-cases (is_known seen f)) [
  | inl k ↦ rw k (drop (Thins-retain_new seen fs))
  | inr k ↦ rw k (keep (Thins-retain_new (dedup_key f ∷ seen) fs))
]

fresh_parts : (a b : Bool) → (a || b) ≡ false → (a ≡ false) × (b ≡ false)
fresh_parts a b h = ground arith

retain_new-Fresh :
    (seen : List Text) (fs : List Finding) → All (λ g. is_known seen g ≡ false) (retain_new seen fs)
unfolding retain_new
retain_new-Fresh seen [] = tt
retain_new-Fresh seen (f ∷ fs) = elim (Bool-cases (is_known seen f)) [
  | inl k ↦ rw k (retain_new-Fresh seen fs)
  | inr k ↦
      rw k (k, All-map _ (λ g h. (fresh_parts _ _ h).1) (retain_new-Fresh (dedup_key f ∷ seen) fs))
]

retain_new-KeysDiffer : (seen : List Text) (fs : List Finding) → KeysDiffer (retain_new seen fs)
unfolding retain_new
retain_new-KeysDiffer seen [] = tt
retain_new-KeysDiffer seen (f ∷ fs) = elim (Bool-cases (is_known seen f)) [
  | inl k ↦ rw k (retain_new-KeysDiffer seen fs)
  | inr k ↦ rw k (
    All-map _ (λ g h. (fresh_parts _ _ h).0) (retain_new-Fresh (dedup_key f ∷ seen) fs),
    retain_new-KeysDiffer (dedup_key f ∷ seen) fs,
  )
]

-- A list whose keys differ, from each other and from those seen, stays whole.
retain_new_id :
    (seen : List Text) (fs : List Finding)
    → All (λ g. is_known seen g ≡ false) fs
    → KeysDiffer fs
    → retain_new seen fs ≡ fs
unfolding retain_new
retain_new_id seen [] fresh differ = refl
retain_new_id seen (f ∷ fs) fresh differ =
    rw (fresh.0)
      (ap (◌∷◌ f) (retain_new_id (dedup_key f ∷ seen) fs (All-both fs differ.0 fresh.1) differ.1))
  where
    All-both :
        (gs : List Finding)
        → All (λ g. text_eq (dedup_key g) (dedup_key f) ≡ false) gs
        → All (λ g. is_known seen g ≡ false) gs
        → All (λ g. is_known (dedup_key f ∷ seen) g ≡ false) gs
    All-both [] a b = tt
    All-both (g ∷ gs) a b = (ground (arith, a.0, b.0), All-both gs a.1 b.1)

shift : (a b c : Bool) → ((a || b) || c) ≡ true → (b || (a || c)) ≡ true
shift a b c h = ground arith

retain_new_known :
    (seen : List Text) (f : Finding) (fs : List Finding)
    → is_known seen f ≡ true
    → retain_new seen (f ∷ fs) ≡ retain_new seen fs
unfolding retain_new
retain_new_known seen f fs k = rw k

retain_new_fresh :
    (seen : List Text) (f : Finding) (fs : List Finding)
    → is_known seen f ≡ false
    → retain_new seen (f ∷ fs) ≡ f ∷ retain_new (dedup_key f ∷ seen) fs
unfolding retain_new
retain_new_fresh seen f fs k = rw k

abbrev Covered : List Text → List Finding → List Finding → Type 0
Covered seen kept = All (λ g. (is_known seen g || has_twin kept g) ≡ true)

retain_new-Covered : (seen : List Text) (fs : List Finding) → Covered seen (retain_new seen fs) fs
retain_new-Covered seen [] = tt
retain_new-Covered seen (f ∷ fs) = elim (Bool-cases (is_known seen f)) [
  | inl k ↦
      subst (λ kept. Covered seen kept (f ∷ fs)) (sym (retain_new_known seen f fs k))
        (ground (arith, k), retain_new-Covered seen fs)
  | inr k ↦
      subst (λ kept. Covered seen kept (f ∷ fs)) (sym (retain_new_fresh seen f fs k))
        (
          ground (arith, text_eq_refl (dedup_key f)),
          All-map fs
              (λ g h.
                shift (text_eq (dedup_key g) (dedup_key f)) (is_known seen g)
                  (has_twin (retain_new (dedup_key f ∷ seen) fs) g) h)
              (retain_new-Covered (dedup_key f ∷ seen) fs),
        )
]

length-Thins : {kept findings : List Finding} → Thins kept findings → length kept ≤ length findings
length-Thins done = omega arith
length-Thins (keep t) = omega (arith, length-Thins t)
length-Thins (drop t) = omega (arith, length-Thins t)

-- `deduplicate_findings` leaves findings out and keeps the order of the others; the keys of those
-- that stay differ; every finding has one with its key among them; the returned number is how many
-- are gone; and a second run removes nothing.
pub deduplicate_findings_lem :
    (findings : List Finding)
    → Thins (deduplicate_findings findings).0 findings
      × KeysDiffer (deduplicate_findings findings).0
      × All (λ f. has_twin (deduplicate_findings findings).0 f ≡ true) findings
      × ((deduplicate_findings findings).1 + length (deduplicate_findings findings).0
          ≡ length findings)
      × (deduplicate_findings (deduplicate_findings findings).0
          ≡ ((deduplicate_findings findings).0, 0))
unfolding deduplicate_findings
deduplicate_findings_lem findings =
    let thins = Thins-retain_new [] findings in
    let differ = retain_new-KeysDiffer [] findings in
    let same = retain_new_id [] (retain_new [] findings) (retain_new-Fresh [] findings) differ in
    (
      thins,
      differ,
      retain_new-Covered [] findings,
      omega (arith, length-Thins thins),
      ap (λ k. (k, length (retain_new [] findings) - length k)) same
          ∙ ap (λ n. (retain_new [] findings, n)) (omega arith),
    )

join_key_shift :
    (a b c s t : Text) → join_key a (b ++ lit "|" ++ c) s t ≡ join_key (a ++ lit "|" ++ b) c s t
join_key_shift a b c s t = simp append_assoc

-- Two findings whose fingerprints and rules differ, at the same source and sink, have one key when
-- the bar that separates the parts of the key stands in the parts themselves: the second finding
-- is dropped as a duplicate of the first.
pub deduplicate_findings_collision :
    (f g : Finding) (a b c : Text)
    → fingerprint f ≡ a ++ lit "|" ++ b
    → f.rule_id ≡ c
    → fingerprint g ≡ a
    → g.rule_id ≡ b ++ lit "|" ++ c
    → f.source_location ≡ g.source_location
    → f.sink_location ≡ g.sink_location
    → deduplicate_findings (f ∷ g ∷ []) ≡ (f ∷ [], 1)
unfolding deduplicate_findings dedup_key
deduplicate_findings_collision f g a b c pf rf pg rg src snk = collide (
    cc (
      join_key_shift a b c (location_key f.source_location) (location_key f.sink_location),
      pf,
      rf,
      pg,
      rg,
      src,
      snk,
    ))
  where
    collide : dedup_key g ≡ dedup_key f → deduplicate_findings (f ∷ g ∷ []) ≡ (f ∷ [], 1)
    collide e = ground (
      arith,
      retain_new_fresh [] f (g ∷ []) refl,
      retain_new_known (dedup_key f ∷ []) g [],
      text_eq_iff (dedup_key g) (dedup_key f),
      e,
    )
