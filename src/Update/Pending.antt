-- ===== src/Update/Pending.antt =====
-- What NVS holds of an update that `notePending` recorded and `clearPending` took back.
use presence_platform.Prelude.{
  ◌≡◌, ◌⊎◌, inl, inr, refl, true, false, some, Bytes, arith, Option-cases, Bool-cases,
}
use presence_platform.Ota.Version.{parse_ota_version}
use presence_platform.Ota.Guard.{
  OtaPersistedState, OtaGuard, Answers, note_parsed, save, note_pending, clear_pending,
}

-- NVS records no pending update that it did not record before.
abbrev pub NotPending : OtaGuard → OtaGuard → Type 0
NotPending before after =
    (after.nvs ≡ before.nvs)
    ⊎ ((s : OtaPersistedState) × (after.nvs ≡ some s) × (s.has_pending ≡ false))

pub note_pending_unsaved :
    (a : Answers) (version sha : Bytes) (g : OtaGuard)
    → (note_pending a version sha g).0 ≡ false
    → (note_pending a version sha g).1.nvs ≡ g.nvs
unfolding note_pending note_parsed save
note_pending_unsaved a version sha g h = elim (Option-cases (parse_ota_version version)) [
  | inl e ↦ ground arith
  | inr (v, e) ↦ ground arith
]

-- NVS still records an update of this hash as pending, which the guard itself has forgotten.
abbrev pub StillPending : Bytes → OtaGuard → Type 0
StillPending sha after =
    (s : OtaPersistedState) × (after.nvs ≡ some s)
    × (s.has_pending ≡ true)
    × (s.pending_sha ≡ sha)
    × (after.st.has_pending ≡ false)

note_pending_saved :
    (a : Answers) (version sha : Bytes) (g : OtaGuard)
    → (note_pending a version sha g).0 ≡ true
    → let noted = (note_pending a version sha g).1 in
      (noted.nvs ≡ some noted.st) × (noted.st.has_pending ≡ true) × (noted.st.pending_sha ≡ sha)
unfolding note_pending note_parsed save
note_pending_saved a version sha g h = elim (Option-cases (parse_ota_version version)) [
  | inl e ↦ absurd (ground arith)
  | inr (v, e) ↦ (ground arith, ground arith, ground arith)
]

-- The two writes are answered apart: where the second is refused the entry stays.
pub clear_pending_cases :
    (a : Answers) (version sha : Bytes) (g : OtaGuard)
    → (note_pending a version sha g).0 ≡ true
    → let after = clear_pending a (note_pending a version sha g).1 in
      NotPending g after ⊎ ((a.clear_ok ≡ false) × StillPending sha after)
unfolding clear_pending save
clear_pending_cases a version sha g h =
    let noted = (note_pending a version sha g).1 in
    let (entry, pending, image) = note_pending_saved a version sha g h in
    elim (Bool-cases a.clear_ok) [
      | inl e ↦ inl (inr (record noted.st { has_pending = false }, ground arith, refl))
      | inr e ↦ inr (e, (noted.st, ground arith, pending, image, ground arith))
    ]
