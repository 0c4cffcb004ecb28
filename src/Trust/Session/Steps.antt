-- ===== src/Trust/Session/Steps.antt =====
-- What the operations of a session do to it, by the operations that they are made of
-- (crates/secureflow-knowledge/src/catalog_trust/consumer.rs).
use secureflow.Prelude.{
  ◌≡◌, refl, ok, err, if◌then◌else◌, true, false, Bool, length, ℕ, ◌+◌, ◌≡◌, refl, Bool, true,
  false, Option, none, some, List, [], ◌∷◌, ok, err, arith, inl, inr,
}
use secureflow.Text.{Text}
use secureflow.Trust.Errors.{Tried}
use secureflow.Trust.Types.{RoleRecord}
use secureflow.Trust.Policy.{Host}
use secureflow.Trust.Session.{
  pure, lift, Session, Action, Write, ◌>>=◌, asks, fold_action, save, save_as, save_if,
  write_encoded, retain, count_bytes, replace_with, advanced, next_generation, encode_state,
  read_metadata, read_file, with_role,
}
use secureflow.Trust.Session.Forward.{IsLater, IsLater-refl, IsLater-trans, IsForward-refl}

-- Inversion of a bind of actions that succeeds.
pub action_ok :
    {A B : Type 0} (m : Action A) (f : A → Action B) (s : Session) {b : B}
    → (◌>>=◌ m f s).0 ≡ ok b
    → (a : A) × ((m s).0 ≡ ok a) × (◌>>=◌ m f s ≡ f a (m s).1)
action_ok {A} {B} m f s {b} h = go (m s) h
  where
    go :
        (r : Tried A × Session)
        → (elim r.0 as (λ _. Tried B × Session) [ ok a ↦ f a r.1 | err e ↦ (err e, r.1) ]).0 ≡ ok b
        → (a : A) × (r.0 ≡ ok a)
          × ((elim r.0 as (λ _. Tried B × Session) [ ok a ↦ f a r.1 | err e ↦ (err e, r.1) ])
              ≡ f a r.1)
    go (ok a, t) k = (a, refl, refl)
    go (err e, t) k = cc k

module _ (host : Host) where
  -- The action leaves a later session, also on an error.
  abbrev pub Advances : {A : Type 0} → Action A → Type 0
  Advances m = (s : Session) → IsLater host s (m s).1

  pub >>=-Advances :
      {A B : Type 0} (m : Action A) (f : A → Action B)
      → Advances m
      → ((a : A) → Advances (f a))
      → Advances (m >>= f)
  >>=-Advances {A} {B} m f hm hf s = go (m s) (hm s)
    where
      go :
          (r : Tried A × Session)
          → IsLater host s r.1
          → IsLater host s
              (elim r.0 as (λ _. Tried B × Session) [ ok a ↦ f a r.1 | err e ↦ (err e, r.1) ]).1
      go (ok a, t) h = IsLater-trans host h (hf a t)
      go (err e, t) h = h

  pub asks-Advances : {A : Type 0} (f : Session → Tried A) → Advances (asks f)
  asks-Advances f s = IsLater-refl host s

  pub pure-Advances : {A : Type 0} (a : A) → Advances (pure a)
  pure-Advances a s = IsLater-refl host s

  pub lift-Advances : {A : Type 0} (r : Tried A) → Advances (lift r)
  lift-Advances r s = IsLater-refl host s

  pub if-Advances :
      {A : Type 0} (b : Bool) (m n : Action A)
      → Advances m
      → Advances n
      → Advances (if b then m else n)
  if-Advances true m n hm hn = hm
  if-Advances false m n hm hn = hn

  pub fold_action-Advances :
      {A B : Type 0} (f : B → A → Action B)
      → ((b : B) (a : A) → Advances (f b a))
      → (xs : List A) (b : B) → Advances (fold_action f b xs)
  fold_action-Advances f h [] b s = IsLater-refl host s
  fold_action-Advances f h (x ∷ xs) b s =
      >>=-Advances (f b x) (λ c. fold_action f c xs) (h b x) (λ c. fold_action-Advances f h xs c) s

  -- The fields that the order does not look at.
  moved :
      (s : Session) (n : ℕ) (ws : List Write) → IsLater host s (record s { total = n; writes = ws })
  moved s n ws = record {
    clock = refl;
    mutating = refl;
    state = IsForward-refl host s.state;
    stored = inl refl;
    time = λ latest h. (
      latest,
      record { now = h.now; clock = h.clock; saved = h.saved; before = h.before },
      omega arith,
    );
  }

  written :
      (s : Session) (bytes : Text) (ws : List Write)
      → encode_state host s.state ≡ ok bytes
      → IsLater host s (record s { state_json = bytes; writes = ws })
  written s bytes ws e = record {
    clock = refl;
    mutating = refl;
    state = IsForward-refl host s.state;
    stored = inr (s.state, IsForward-refl host s.state, e);
    time = λ latest h. (
      latest,
      record { now = h.now; clock = h.clock; saved = h.saved; before = h.before },
      omega arith,
    );
  }

  count_bytes-Advances : (r : Tried Text) → Advances (count_bytes r)
  count_bytes-Advances (ok bytes) s = moved s (s.total + length bytes) s.writes
  count_bytes-Advances (err e) s = IsLater-refl host s

  pub read_metadata-Advances :
      (file : Option Text) (limit : ℕ) → Advances (read_metadata file limit)
  unfolding read_metadata
  read_metadata-Advances file limit s = count_bytes-Advances (read_file file limit) s

  -- Writing the state of a session leaves it, and state.json holds the old bytes or that state.
  replace_with-Advances :
      (ws : List Write) (bytes : Text) (s : Session)
      → encode_state host s.state ≡ ok bytes
      → IsLater host s (replace_with ws bytes s).1
  unfolding replace_with
  replace_with-Advances [] bytes s e = written s bytes s.writes e
  replace_with-Advances (Write.done ∷ us) bytes s e = written s bytes us e
  replace_with-Advances (Write.unsynced ∷ us) bytes s e = written s bytes us e
  replace_with-Advances (Write.refused code ∷ us) bytes s e = moved s s.total us

  write_encoded-Advances :
      (r : Tried Text) (s : Session)
      → encode_state host s.state ≡ r
      → IsLater host s (write_encoded r s).1
  write_encoded-Advances (ok bytes) s e = replace_with-Advances s.writes bytes s e
  write_encoded-Advances (err code) s e = IsLater-refl host s

  advanced-Advances :
      (s : Session) (g : ℕ)
      → next_generation s.state.generation ≡ some g
      → IsLater host s (advanced s g)
  advanced-Advances s g e =
      let same = IsForward-refl host s.state in
      record {
        clock = refl;
        mutating = refl;
        state = record {
          policy = refl;
          floors = same.floors;
          roles = same.roles;
          roots = same.roots;
          generation = ground (arith, e);
        };
        stored = inl refl;
        time = λ latest h. (
          h.now,
          record { now = h.now; clock = h.clock; saved = h.clock; before = omega arith },
          h.before,
        );
      }

  save_as-Advances :
      (o : Option ℕ) (s : Session)
      → next_generation s.state.generation ≡ o
      → IsLater host s (save_as host o s).1
  save_as-Advances none s e = IsLater-refl host s
  save_as-Advances (some g) s e =
      let t = advanced s g in
      IsLater-trans host (advanced-Advances s g e)
        (write_encoded-Advances (encode_state host t.state) t refl)

  save_if-Advances : (b : Bool) → Advances (save_if host b)
  save_if-Advances false s = IsLater-refl host s
  save_if-Advances true s = save_as-Advances (next_generation s.state.generation) s refl

  pub save-Advances : Advances (save host)
  unfolding save
  save-Advances s = save_if-Advances s.mutating s

  -- A record that passed the floor of its role.
  pub retain-Later :
      (role : Text) (r : Tried RoleRecord) (s : Session)
      → ((entry : RoleRecord) → r ≡ ok entry → IsLater host s (with_role s role entry))
      → IsLater host s (retain host role r s).1
  retain-Later role (ok entry) s h =
      IsLater-trans host (h entry refl) (save-Advances (with_role s role entry))
  retain-Later role (err e) s h = IsLater-refl host s
