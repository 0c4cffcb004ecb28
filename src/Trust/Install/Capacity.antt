-- ===== src/Trust/Install/Capacity.antt =====
-- `install_with_checkpoint` of crates/secureflow-knowledge/src/catalog_trust/install.rs reserves the
-- room for the completed receipt before it publishes.
use secureflow.Trust.Map.{insert}
use secureflow.Trust.Install.{with_completed, with_pending}
use secureflow.Trust.Session.Saved.{IsSaved}
use secureflow.Trust.Errors.{or_error-eq-ok, Code, or_error, check, Tried}
use secureflow.Text.{Text}
use secureflow.Trust.Types.{Descriptor, Receipt, Clock, State}
use secureflow.Trust.Session.{
  write_encoded, save_as, save_if, advanced, Session, encode_state, replace_with, save,
  next_generation,
}
use secureflow.Trust.Receipts.{complete, completed_state, pending_receipt, reserve}
use secureflow.Trust.Policy.{Host}
use secureflow.Prelude.{
  unwrap_or, ok_injective, >>-eq-ok, none, >>=-eq-ok, sym, ap, ◌∙◌, true, err, ◌+◌, some, ℕ, ◌≡◌,
  ok, arith, [], refl,
}

-- What a reservation has seen: the next two generations, and an encoding of the completed state.
record IsReserved (host : Host) (state : State) (clock : Clock) (receipt : Receipt) (id : Text)
    : Type 0 where
  first : next_generation state.generation ≡ some (state.generation + 1)
  later : ℕ
  second : next_generation (state.generation + 1) ≡ some later
  bytes : Text
  fits : encode_state host (completed_state state id receipt later clock) ≡ ok bytes

next_generation-eq-some : (g : ℕ) {n : ℕ} → next_generation g ≡ some n → n ≡ g + 1
next_generation-eq-some g e = ground (arith, e)

reserve-IsReserved :
    (host : Host) (state : State) (clock : Clock) (path : Text) (r receipt : Receipt) (id : Text)
    → reserve host state clock path r ≡ ok (receipt, id)
    → IsReserved host state clock receipt id
unfolding reserve pending_receipt
reserve-IsReserved host state clock path r receipt id h =
    let (g, x, a) = >>=-eq-ok (or_error Code.state (next_generation state.generation)) _ h in
    let made = pending_receipt host r path g in
    let i = unwrap_or [] made.transaction_id in
    let (n, z, c) = >>=-eq-ok (or_error Code.state (next_generation g)) _ a in
    let d = >>-eq-ok (check (encode_state host (completed_state state i made n clock))) _ c in
    let e = ok_injective d.1 in
    let found = or_error-eq-ok Code.state (next_generation state.generation) x in
    let eg : g ≡ state.generation + 1 = next_generation-eq-some state.generation found in
    by_encoding (encode_state host (completed_state state i made n clock)) g n i made refl d.0 found
      eg (or_error-eq-ok Code.state (next_generation g) z) e
  where
    by_encoding :
        (q : Tried Text) (g n : ℕ) (i : Text) (made : Receipt)
        → encode_state host (completed_state state i made n clock) ≡ q
        → check q ≡ ok tt
        → next_generation state.generation ≡ some g
        → g ≡ state.generation + 1
        → next_generation g ≡ some n
        → ◌≡◌ {A = Receipt × Text} (made, i) (receipt, id)
        → IsReserved host state clock receipt id
    by_encoding (err code) g n i made f k found eg z e = cc k
    by_encoding (ok bytes) g n i made f k found eg z e = record {
      first = found ∙ ap some eg;
      later = n;
      second = ap next_generation (sym eg) ∙ z;
      bytes = bytes;
      fits = ap (λ q. encode_state host (completed_state state q.1 q.0 n clock)) (sym e) ∙ f;
    }

-- If `reserve` succeeds, the state with the pending installation is saved, the session may write and
-- no later write fails, then the save that completes the receipt succeeds: there is a generation
-- left, and the completed state can be encoded.
pub reserve-save :
    (host : Host) (path : Text) (r receipt : Receipt) (id : Text) (descriptor : Descriptor)
    (s u : Session)
    → reserve host s.state s.clock path r ≡ ok (receipt, id)
    → IsSaved host (with_pending s (some (record { receipt = receipt; descriptor = descriptor }))) u
    → u.mutating ≡ true
    → u.writes ≡ []
    → (save host (with_pending (with_completed u id (complete receipt)) none)).0 ≡ ok tt
unfolding save replace_with
reserve-save host path r receipt id descriptor s u h saved m w =
    let v = with_pending (with_completed u id (complete receipt)) none in
    let q = reserve-IsReserved host s.state s.clock path r receipt id h in
    let eg : u.state.generation ≡ s.state.generation + 1 = ap (λ x. x.generation) saved.state in
    let next : next_generation v.state.generation ≡ some q.later =
      ap next_generation eg ∙ q.second in
    let same : (advanced v q.later).state ≡ completed_state s.state id receipt q.later s.clock =
      ap {A = State} {B = State}
        (λ x. record x {
          completed = insert id (complete receipt) x.completed;
          pending = none;
          generation = q.later;
          maximum_verification_time = u.clock.verification_time;
        })
        saved.state
      ∙ ap (λ (c : Clock). completed_state s.state id receipt q.later c) saved.clock in
    let encoded : encode_state host (advanced v q.later).state ≡ ok q.bytes =
      ap (encode_state host) same ∙ q.fits in
    ap (λ b. (save_if host b v).0) m
    ∙ ap (λ o. (save_as host o v).0) next
    ∙ ap (λ e. (write_encoded e (advanced v q.later)).0) encoded
    ∙ ap (λ ws. (replace_with ws q.bytes (advanced v q.later)).0) w
