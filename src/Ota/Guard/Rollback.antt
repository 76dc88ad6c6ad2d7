-- ===== src/Ota/Guard/Rollback.antt =====
-- What becomes of an image that was made bootable and is not what runs at the next boot.
use presence_platform.Prelude.{
  ℕ, ◌<◌, ◌≡◌, ◌≢◌, sym, ap, ◌∙◌, Option-cases, true, false, Bytes, Option, some, arith, inl, inr,
}
use presence_platform.Ota.Version.{parse_ota_version}
use presence_platform.Ota.Guard.{
  OtaGuard, OtaPersistedState, Answers, accept, rolled_back, ota_state_magic, begin, check,
  note_pending,
}
use presence_platform.Ota.Guard.Floor.{IsSynced}
use presence_platform.Ota.Guard.Check.{check-accept}

-- An entry of NVS that `begin` accepts and that records a pending image other than the one running.
pub record Abandoned (o : Option OtaPersistedState) (version : Bytes) : Type 0 where
  pub stored : OtaPersistedState
  pub running : ℕ
  pub found : o ≡ some stored
  pub marked : stored.magic ≡ ota_state_magic
  pub pending : stored.has_pending ≡ true
  pub parses : parse_ota_version version ≡ some running
  pub other : stored.pending_version ≢ running

-- A boot that does not find the pending image running records that image as bad, drops the pending
-- record and keeps the floor; a terminal that awaits no confirmation reports the rollback.
pub begin_condemns :
    (a : Answers) (version : Bytes) (now_ms : ℕ) (g : OtaGuard) (b : Abandoned g.nvs version)
    → let h = begin a version false now_ms g in
      (h.kind ≡ rolled_back)
      × (h.st.has_pending ≡ false)
      × (h.st.has_bad ≡ true)
      × (h.st.bad_sha ≡ b.stored.pending_sha)
      × (h.st.floor ≡ b.stored.floor)
unfolding begin
begin_condemns a version now_ms g b =
    ground (arith, b.found, b.parses, b.marked, b.pending, b.other)

begin_identity :
    (a : Answers) (version : Bytes) (now_ms : ℕ) (g : OtaGuard) (b : Abandoned g.nvs version)
    → let h = begin a version false now_ms g in
      (h.running_ok ≡ true) × (h.running ≡ b.running) × (h.awaiting ≡ false)
unfolding begin
begin_identity a version now_ms g b =
    ground (arith, b.found, b.parses, b.marked, b.pending, b.other)

note_pending-stored :
    (a : Answers) (version sha : Bytes) (g : OtaGuard)
    → IsSynced g
    → (note_pending a version sha g).0 ≡ true
    → let h = (note_pending a version sha g).1 in
      (h.nvs ≡ some h.st)
      × (h.st.magic ≡ ota_state_magic)
      × (h.st.has_pending ≡ true)
      × (h.st.pending_sha ≡ sha)
      × (parse_ota_version version ≡ some h.st.pending_version)
unfolding note_pending
note_pending-stored a version sha g v ok = elim (Option-cases (parse_ota_version version)) [
  | inl e ↦ absurd (ground arith)
  | inr (n, e) ↦ ground arith
]

-- If `notePending` returned true for an update, and the next boot, with no image to confirm,
-- runs a version that parses and is not the update's, then that boot reports a rollback and its
-- guard does not accept the update's image under any version.
pub rolled_back_refused :
    (a b : Answers) (version sha running : Bytes) (now_ms r : ℕ) (g : OtaGuard) (again : Bytes)
    → IsSynced g
    → (note_pending a version sha g).0 ≡ true
    → parse_ota_version running ≡ some r
    → parse_ota_version version ≢ some r
    → let h = begin b running false now_ms (note_pending a version sha g).1 in
      (h.kind ≡ rolled_back) × (check h again sha ≢ accept)
rolled_back_refused a b version sha running now_ms r g again v ok parses other =
    let g1 = (note_pending a version sha g).1 in
    let (stored, marked, pending, image, code) = note_pending-stored a version sha g v ok in
    let gone : Abandoned g1.nvs running = record {
      stored = g1.st;
      running = r;
      found = stored;
      marked = marked;
      pending = pending;
      parses = parses;
      other = λ e. other (code ∙ ap some e);
    } in
    let (kind, dropped, bad, which, floor) = begin_condemns b running now_ms g1 gone in
    let h = begin b running false now_ms g1 in
    (kind, λ taken. refuses h again sha bad (which ∙ image) taken)
  where
    refuses :
        (h : OtaGuard) (again sha : Bytes)
        → h.st.has_bad ≡ true
        → h.st.bad_sha ≡ sha
        → check h again sha ≢ accept
    refuses h again sha bad which e = elim ((check-accept h again sha).0 e).not_bad [
      | inl n ↦ cc
      | inr n ↦ n (sym which)
    ]

-- Only one image is remembered as bad: if NVS holds a valid state with the hash of a bad image
-- and a pending update of another hash, and a boot with no image to confirm runs a version that
-- parses and is not the pending one, then behind this boot the formerly bad image is accepted
-- under any version above the running one and the floor.
pub second_rollback_forgets :
    (a : Answers) (running again sha : Bytes) (now_ms cand : ℕ) (g : OtaGuard)
    (b : Abandoned g.nvs running)
    → b.stored.bad_sha ≡ sha
    → b.stored.pending_sha ≢ sha
    → parse_ota_version again ≡ some cand
    → b.running < cand
    → b.stored.floor < cand
    → check (begin a running false now_ms g) again sha ≡ accept
second_rollback_forgets a running again sha now_ms cand g b was other parses newer above =
    let (kind, dropped, bad, which, floor) = begin_condemns a running now_ms g b in
    let h = begin a running false now_ms g in
    let (ok, runs_it, calm) = begin_identity a running now_ms g b in
    (check-accept h again sha).1 (record {
      versioned = ok;
      settled = calm;
      code = cand;
      parses = parses;
      above_running = omega arith;
      above_floor = omega arith;
      not_bad = inr (λ e. other (cc));
    })
