-- ===== src/Update/Applied.antt =====
-- firmware/src/main.cpp: what `applyOta` has made sure of when it answers `Applied`.
use presence_platform.Prelude.{
  ◌+◌, ◌*◌, ◌≤◌, ◌<◌, ◌≡◌, ◌≢◌, refl, sym, subst, ap, ◌∙◌, Bool, true, none, some, Bytes, bytes_eq,
  bytes_eq_sound, size_mod, arith, Option-cases, inl, inr,
}
use presence_platform.Ota.Version.{parse_ota_version}
use presence_platform.Ota.Guard.{
  OtaPersistedState, OtaGuard, Answers, accept, check, note_parsed, save, note_pending,
}
use presence_platform.Ota.Guard.Check.{IsNewer, check-accept}
use presence_platform.Ota.Image.{Crypto, OtaVerdict, ImageVerifier, open_verifier, finish}
use presence_platform.Ota.Image.Chunks.{IsStreaming, joined, image_verdict, chunks_verdict}
use presence_platform.Update.{
  Sha256, Input, Partitions, OtaResult, applied, Download, stored, truncated, unwritten, ota_chunk,
  chunk_rounds, OtaOffer, Updater, download, tell_ready, read_back, commit_image, judge_image,
  verify_slot, end_image, write_image, apply_ota,
}
use presence_platform.Update.ReadBack.{IsPartitioned, IsIncremental, IsRead, read_back-IsRead}

-- What holds of the terminal after an update that `applyOta` has applied.
pub record IsInstalled (C : Crypto) (H : Sha256) (F : Partitions) (key : Bytes) (offer : OtaOffer)
    (flash : F.Flash) (guard : OtaGuard) : Type 0 where
  pub slot : F.Slot
  pub boots : F.boot flash ≡ some slot
  pub image : Bytes
  pub content : F.read flash slot 0 offer.size ≡ some image
  pub digest_right : H.digest (H.update H.starts image) ≡ offer.sha256
  pub signature_right :
      image_verdict C key offer.signature offer.version offer.size image ≡ OtaVerdict.ok
  pub st : OtaPersistedState
  pub recorded : guard.nvs ≡ some st
  pub pending : st.has_pending ≡ true
  pub pending_sha : st.pending_sha ≡ offer.sha256
  pub pending_version : parse_ota_version offer.version ≡ some st.pending_version

note_pending_saved :
    (a : Answers) (version sha : Bytes) (g : OtaGuard)
    → (note_pending a version sha g).0 ≡ true
    → (s : OtaPersistedState) × ((note_pending a version sha g).1.nvs ≡ some s)
      × (s.has_pending ≡ true)
      × (s.pending_sha ≡ sha)
      × (parse_ota_version version ≡ some s.pending_version)
unfolding note_pending note_parsed save
note_pending_saved a version sha g h = elim (Option-cases (parse_ota_version version)) [
  | inl e ↦ absurd (ground arith)
  | inr (v, e) ↦ (
    record g.st { has_pending = true; pending_version = v; pending_sha = sha },
    ground arith,
    refl,
    refl,
    e,
  )
]

module _ (C : Crypto) (H : Sha256) (F : Partitions) (I : Input) where
  commit_applied :
      (a : Answers) (slot : F.Slot) (offer : OtaOffer) (u : Updater F I)
      → (commit_image C H F I a slot offer u).0 ≡ applied
      → ((note_pending a offer.version offer.sha256 u.guard).0 ≡ true)
        × ((F.set_boot u.flash slot).0 ≡ true)
        × ((commit_image C H F I a slot offer u).1 ≡ record u {
          guard = (note_pending a offer.version offer.sha256 u.guard).1;
          flash = (F.set_boot u.flash slot).1;
        })
  unfolding commit_image
  commit_applied a slot offer u h = (ground arith, ground arith, ground arith)

  judge_applied :
      (a : Answers) (slot : F.Slot) (offer : OtaOffer) (digest : Bytes) (verdict : OtaVerdict)
      (u : Updater F I)
      → (judge_image C H F I a slot offer digest verdict u).0 ≡ applied
      → (bytes_eq digest offer.sha256 ≡ true)
        × (verdict ≡ OtaVerdict.ok)
        × (judge_image C H F I a slot offer digest verdict u ≡ commit_image C H F I a slot offer u)
  unfolding judge_image
  judge_applied a slot offer digest verdict u h = ground arith

  module _ (key : Bytes) (a : Answers) (slot : F.Slot) (offer : OtaOffer) where
    end_image_applied :
        (handle : F.Handle) (d : Download × Updater F I)
        → (end_image C H F I key a slot handle offer d).0 ≡ applied
        → (w : Updater F I) × (end_image C H F I key a slot handle offer d
            ≡ verify_slot C H F I key a slot offer w)
    unfolding end_image
    end_image_applied handle (truncated, u) h = absurd (ground arith)
    end_image_applied handle (unwritten, u) h = absurd (ground arith)
    end_image_applied handle (stored, u) h =
        (record u { flash = (F.ota_end u.flash handle).1 }, ground arith)

    write_image_applied :
        (ready : Bool) (u : Updater F I)
        → (write_image C H F I key a ready slot offer u).0 ≡ applied
        → (w : Updater F I) × (write_image C H F I key a ready slot offer u
            ≡ verify_slot C H F I key a slot offer w)
    unfolding write_image
    write_image_applied ready u h = elim (Option-cases (F.ota_begin u.flash slot offer.size).0) [
      | inl e ↦ absurd (ground arith)
      | inr (handle, e) ↦
          let u1 : Updater F I = record u { flash = (F.ota_begin u.flash slot offer.size).1 } in
          let d : Download × Updater F I =
            download F I (chunk_rounds offer.size) ready handle offer.size 0
              (tell_ready F I ready u1) in
          let begun : write_image C H F I key a ready slot offer u
              ≡ end_image C H F I key a slot handle offer d =
            rw (write_image, e) refl in
          let (w, ended) = end_image_applied handle d (ap (λ x. x.0) (sym begun) ∙ h) in
          (w, begun ∙ ended)
    ]

  module _ (R : IsStreaming C) (N : IsIncremental H) (P : IsPartitioned F) (key : Bytes)
      (a : Answers) (slot : F.Slot) (offer : OtaOffer) (small : offer.size + ota_chunk < size_mod)
      (some_bytes : 0 < offer.size) where
    abbrev Installed : OtaResult × Updater F I → Type 0
    Installed r = IsInstalled C H F key offer r.1.flash r.1.guard

    enough_rounds : offer.size ≤ 0 + chunk_rounds offer.size * ota_chunk
    unfolding chunk_rounds
    enough_rounds = omega arith

    judge-IsInstalled :
        (sha : H.Ctx) (v : ImageVerifier C) (u : Updater F I)
        → IsRead C H F u.flash slot offer.size 0 H.starts
            (open_verifier C key offer.signature offer.version offer.size)
            sha
            v
        → (judge_image C H F I a slot offer (H.digest sha) (finish C v).0 u).0 ≡ applied
        → Installed (judge_image C H F I a slot offer (H.digest sha) (finish C v).0 u)
    judge-IsInstalled sha v u r h =
        let (same, good, committed) =
          judge_applied a slot offer (H.digest sha) (finish C v).0 u h in
        let (noted, booted, after) =
          commit_applied a slot offer u (ap (λ x. x.0) (sym committed) ∙ h) in
        let (st, recorded, pending, pending_sha, version) =
          note_pending_saved a offer.version offer.sha256 u.guard noted in
        let content : F.read u.flash slot 0 offer.size ≡ some (joined r.chunks) =
          ap (F.read u.flash slot 0) (omega arith) ∙ r.content in
        let whole = P.length-read u.flash slot 0 offer.size (joined r.chunks) content in
        let verdict =
          chunks_verdict C R key offer.signature offer.version offer.size r.chunks
            (omega (arith, whole)) in
        rw (committed, after)
          (record {
            slot = slot;
            boots = P.boot-set_boot u.flash slot booted;
            image = joined r.chunks;
            content = P.read-set_boot u.flash slot slot 0 offer.size ∙ content;
            digest_right = ap H.digest (sym r.hashed) ∙ bytes_eq_sound _ _ same;
            signature_right = sym verdict.0 ∙ ap (λ x. (finish C x).0) (sym r.verified) ∙ good;
            st = st;
            recorded = recorded;
            pending = pending;
            pending_sha = pending_sha;
            pending_version = version;
          })

    verify_slot_read :
        (u : Updater F I) (sha : H.Ctx) (v : ImageVerifier C)
        → read_back C H F
            (chunk_rounds offer.size)
            u.flash
            slot
            offer.size
            0
            H.starts
            (open_verifier C key offer.signature offer.version offer.size)
          ≡ some (sha, v)
        → verify_slot C H F I key a slot offer u
          ≡ judge_image C H F I a slot offer (H.digest sha) (finish C v).0 u
    unfolding verify_slot judge_image
    verify_slot_read u sha v e = rw (verify_slot, e) refl

    verify_slot_unread :
        (u : Updater F I)
        → read_back C H F
            (chunk_rounds offer.size)
            u.flash
            slot
            offer.size
            0
            H.starts
            (open_verifier C key offer.signature offer.version offer.size)
          ≡ none
        → (verify_slot C H F I key a slot offer u).0 ≢ applied
    unfolding verify_slot
    verify_slot_unread u e h = ground arith

    verify_slot-IsInstalled :
        (u : Updater F I)
        → (verify_slot C H F I key a slot offer u).0 ≡ applied
        → Installed (verify_slot C H F I key a slot offer u)
    verify_slot-IsInstalled u h =
        let verifier = open_verifier C key offer.signature offer.version offer.size in
        let rounds = chunk_rounds offer.size in
        elim (Option-cases (read_back C H F rounds u.flash slot offer.size 0 H.starts verifier)) [
          | inl e ↦ absurd (verify_slot_unread u e h)
          | inr ((sha, v), e) ↦
              let judged = verify_slot_read u sha v e in
              let read =
                read_back-IsRead C H F P N u.flash slot offer.size small rounds 0 H.starts verifier
                  sha v some_bytes enough_rounds e in
              subst Installed (sym judged)
                (judge-IsInstalled sha v u read (ap (λ x. x.0) (sym judged) ∙ h))
        ]

  -- Where `applyOta` has got past its first checks.
  apply_ota_started :
      (key : Bytes) (a : Answers) (has_buffer ready : Bool) (offer : OtaOffer) (u : Updater F I)
      → (apply_ota C H F I key a has_buffer ready offer u).0 ≡ applied
      → (0 < offer.size)
        × (check u.guard offer.version offer.sha256 ≡ accept)
        × ((slot : F.Slot) × (apply_ota C H F I key a has_buffer ready offer u
              ≡ write_image C H F I key a ready slot offer u))
  unfolding apply_ota
  apply_ota_started key a has_buffer ready offer u h = elim (Option-cases (F.next_update u.flash)) [
    | inl e ↦ absurd (ground arith)
    | inr (slot, e) ↦ (ground arith, ground arith, (slot, ground arith))
  ]

  -- For a hash and a signature that are computed piece by piece, and partitions that read, join
  -- and boot as documented: if an update of less than 2^32 - 4096 bytes answers Applied, the
  -- version guard found its version newer, the flash boots a slot whose first bytes, read as
  -- one range of the announced size, hash to the announced SHA-256 and pass the signature check
  -- for the key, the version and the size, and NVS records the version and the hash as pending.
  pub apply_ota-IsInstalled :
      IsStreaming C
      → IsIncremental H
      → IsPartitioned F
      → (key : Bytes) (a : Answers) (has_buffer ready : Bool) (offer : OtaOffer) (u : Updater F I)
      → offer.size + ota_chunk < size_mod
      → (apply_ota C H F I key a has_buffer ready offer u).0 ≡ applied
      → IsNewer u.guard offer.version offer.sha256
        × IsInstalled C H F key offer
            (apply_ota C H F I key a has_buffer ready offer u).1.flash
            (apply_ota C H F I key a has_buffer ready offer u).1.guard
  apply_ota-IsInstalled R N P key a has_buffer ready offer u small h =
      let (bytes, accepted, (slot, started)) = apply_ota_started key a has_buffer ready offer u h in
      let (w, verified) =
        write_image_applied key a slot offer ready u (ap (λ x. x.0) (sym started) ∙ h) in
      (
        (check-accept u.guard offer.version offer.sha256).0 accepted,
        subst (λ r. IsInstalled C H F key offer r.1.flash r.1.guard) (sym (started ∙ verified))
            (verify_slot-IsInstalled R N P key a slot offer small bytes w
              (ap (λ x. x.0) (sym (started ∙ verified)) ∙ h)),
      )
