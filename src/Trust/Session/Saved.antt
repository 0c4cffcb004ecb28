-- ===== src/Trust/Session/Saved.antt =====
-- What a successful `save` of crates/secureflow-knowledge/src/catalog_trust/consumer.rs has done.
use secureflow.Trust.Json.{max_sequence}
use secureflow.Text.{Text}
use secureflow.Trust.Session.{
  advanced, write_encoded, save_if, save_as, Write, next_generation, encode_state, save,
  replace_with, Session,
}
use secureflow.Trust.Errors.{Tried}
use secureflow.Trust.Policy.{Host}
use secureflow.Prelude.{
  false, ◌⊎◌, inr, inl, Bool, ◌∷◌, [], refl, none, ◌∙◌, sym, subst, some, err, ap, [], ◌≤◌, ◌+◌,
  true, List, Option, ℕ, ◌≡◌, ok, arith,
}

-- The generation is the next one, the time is the clock's, and state.json holds the state.
pub record IsSaved (host : Host) (s t : Session) : Type 0 where
  pub generation : s.state.generation + 1 ≤ max_sequence
  pub state : t.state ≡ (advanced s (s.state.generation + 1)).state
  pub stored : encode_state host t.state ≡ ok t.state_json
  pub outputs : t.outputs ≡ s.outputs
  pub receipts : t.receipts ≡ s.receipts
  pub clock : t.clock ≡ s.clock
  pub mutating : t.mutating ≡ s.mutating

module _ (host : Host) where
  -- The same state with its bytes in state.json.
  record IsStored (s t : Session) : Type 0 where
    state : t.state ≡ s.state
    stored : encode_state host t.state ≡ ok t.state_json
    outputs : t.outputs ≡ s.outputs
    receipts : t.receipts ≡ s.receipts
    clock : t.clock ≡ s.clock
    mutating : t.mutating ≡ s.mutating

  replace_with-IsStored :
      (ws : List Write) (bytes : Text) (s : Session)
      → encode_state host s.state ≡ ok bytes
      → (replace_with ws bytes s).0 ≡ ok tt
      → IsStored s (replace_with ws bytes s).1
  unfolding replace_with
  replace_with-IsStored [] bytes s e h = record {
    state = refl;
    stored = e;
    outputs = refl;
    receipts = refl;
    clock = refl;
    mutating = refl;
  }
  replace_with-IsStored (Write.done ∷ ws) bytes s e h = record {
    state = refl;
    stored = e;
    outputs = refl;
    receipts = refl;
    clock = refl;
    mutating = refl;
  }
  replace_with-IsStored (Write.unsynced ∷ ws) bytes s e h = cc
  replace_with-IsStored (Write.refused code ∷ ws) bytes s e h = cc

  write_encoded-IsStored :
      (r : Tried Text) (s : Session)
      → encode_state host s.state ≡ r
      → (write_encoded r s).0 ≡ ok tt
      → IsStored s (write_encoded r s).1
  write_encoded-IsStored (ok bytes) s e h = replace_with-IsStored s.writes bytes s e h
  write_encoded-IsStored (err code) s e h = cc

  save_as-IsSaved :
      (o : Option ℕ) (s : Session)
      → next_generation s.state.generation ≡ o
      → (save_as host o s).0 ≡ ok tt
      → IsSaved host s (save_as host o s).1
  save_as-IsSaved none s e h = cc
  save_as-IsSaved (some g) s e h =
      let t = advanced s g in
      let w = write_encoded-IsStored (encode_state host t.state) t refl h in
      let eg : g ≡ s.state.generation + 1 = ground (arith, e) in
      record {
        generation = ground (arith, e);
        state = w.state ∙ ap (λ n. (advanced s n).state) eg;
        stored = w.stored;
        outputs = w.outputs;
        receipts = w.receipts;
        clock = w.clock;
        mutating = w.mutating;
      }

  pub save-IsSaved :
      (s : Session) → s.mutating ≡ true → (save host s).0 ≡ ok tt → IsSaved host s (save host s).1
  unfolding save
  save-IsSaved s m h =
      let r : save_if host s.mutating s ≡ save_as host (next_generation s.state.generation) s =
        ap (λ b. save_if host b s) m in
      subst (λ q. IsSaved host s q.1) (sym r)
        (save_as-IsSaved (next_generation s.state.generation) s refl (ap (λ q. q.0) (sym r) ∙ h))

  -- However a save ends, it touches no output, and state.json holds the old bytes or the new state.
  pub record IsWritten (s t : Session) : Type 0 where
    pub outputs : t.outputs ≡ s.outputs
    pub mutating : t.mutating ≡ s.mutating
    pub stored :
        (t.state_json ≡ s.state_json)
        ⊎ ((g : ℕ) × (encode_state host (advanced s g).state ≡ ok t.state_json))

  replace_with-IsWritten :
      (ws : List Write) (bytes : Text) (s : Session) (g : ℕ)
      → encode_state host (advanced s g).state ≡ ok bytes
      → IsWritten s (replace_with ws bytes (advanced s g)).1
  unfolding replace_with
  replace_with-IsWritten [] bytes s g e = record {
    outputs = refl;
    mutating = refl;
    stored = inr (g, e);
  }
  replace_with-IsWritten (Write.done ∷ ws) bytes s g e = record {
    outputs = refl;
    mutating = refl;
    stored = inr (g, e);
  }
  replace_with-IsWritten (Write.unsynced ∷ ws) bytes s g e = record {
    outputs = refl;
    mutating = refl;
    stored = inr (g, e);
  }
  replace_with-IsWritten (Write.refused code ∷ ws) bytes s g e = record {
    outputs = refl;
    mutating = refl;
    stored = inl refl;
  }

  write_encoded-IsWritten :
      (r : Tried Text) (s : Session) (g : ℕ)
      → encode_state host (advanced s g).state ≡ r
      → IsWritten s (write_encoded r (advanced s g)).1
  write_encoded-IsWritten (ok bytes) s g e = replace_with-IsWritten s.writes bytes s g e
  write_encoded-IsWritten (err code) s g e = record {
    outputs = refl;
    mutating = refl;
    stored = inl refl;
  }

  save_as-IsWritten : (o : Option ℕ) (s : Session) → IsWritten s (save_as host o s).1
  save_as-IsWritten none s = record { outputs = refl; mutating = refl; stored = inl refl }
  save_as-IsWritten (some g) s =
      write_encoded-IsWritten (encode_state host (advanced s g).state) s g refl

  save_if-IsWritten : (b : Bool) (s : Session) → IsWritten s (save_if host b s).1
  save_if-IsWritten false s = record { outputs = refl; mutating = refl; stored = inl refl }
  save_if-IsWritten true s = save_as-IsWritten (next_generation s.state.generation) s

  pub save-IsWritten : (s : Session) → IsWritten s (save host s).1
  unfolding save
  save-IsWritten s = save_if-IsWritten s.mutating s
