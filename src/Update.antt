-- ===== src/Update.antt =====
-- firmware/src/main.cpp: `applyOta`, and the names of its reasons (`otaCandidateName` of ota_guard.h,
-- `otaVerdictName` of ota_verify.h); the key of ota_pubkey.h. The partitions of ESP-IDF, the SHA-256 of
-- mbedTLS and the stream of the download are the parameters `Partitions`, `Sha256` and `Input`.
pub mod ReadBack
pub mod Applied
pub mod Pending
pub mod Refused
use presence_platform.Prelude.{
  ℕ, zero, suc, ◌+◌, ◌-◌, ◌/◌, Bool, true, false, not, ◌&&◌, Option, none, some, Bytes, bytes_eq,
  codes, length, replicate, ◌==◌, ltb, if◌then◌else◌, to_size,
}
use presence_platform.Ota.Guard.{
  OtaCandidate, Answers, OtaGuard, check, note_pending, clear_pending,
}
use presence_platform.Ota.Image.{
  Crypto, OtaVerdict, is_unusable_key, ImageVerifier, open_verifier, feed, finish,
}

-- `mbedtls_sha256_starts_ret`, `mbedtls_sha256_update_ret`, `mbedtls_sha256_finish_ret`.
pub record Sha256 : Type 1 where
  pub Ctx : Type 0
  pub starts : Ctx
  pub update : Ctx → Bytes → Ctx
  pub digest : Ctx → Bytes

-- `Stream::readBytes`: the bytes that came before the timeout, at most as many as asked for.
pub record Input : Type 1 where
  pub Source : Type 0
  pub read_bytes : Source → ℕ → Bytes × Source

-- `esp_ota_*` and `esp_partition_*`. `true` and `some` stand for `ESP_OK`.
pub record Partitions : Type 1 where
  pub Flash : Type 0
  pub Slot : Type 0
  pub Handle : Type 0
  pub slot_size : Slot → ℕ
  pub next_update : Flash → Option Slot
  pub ota_begin : Flash → Slot → ℕ → Option Handle × Flash
  pub ota_write : Flash → Handle → Bytes → Bool × Flash
  pub ota_end : Flash → Handle → Bool × Flash
  pub ota_abort : Flash → Handle → Flash
  pub read : Flash → Slot → ℕ → ℕ → Option Bytes
  pub erase_range : Flash → Slot → ℕ → ℕ → Flash
  pub set_boot : Flash → Slot → Bool × Flash
  -- The slot that the bootloader starts.
  pub boot : Flash → Option Slot

abbrev pub ota_release_public_key : Bytes
ota_release_public_key = replicate 32 0

unfoldable pub ota_candidate_name : OtaCandidate → Bytes
ota_candidate_name OtaCandidate.accept = codes "ok"
ota_candidate_name OtaCandidate.running_unversioned =
    codes "running build has no MAJOR.MINOR.PATCH version"
ota_candidate_name OtaCandidate.bad_version = codes "version is not MAJOR.MINOR.PATCH"
ota_candidate_name OtaCandidate.not_newer = codes "not newer than the running version"
ota_candidate_name OtaCandidate.below_floor = codes "not newer than the version floor"
ota_candidate_name OtaCandidate.known_bad = codes "this image was rolled back before"
ota_candidate_name OtaCandidate.unconfirmed = codes "running image is not confirmed yet"

unfoldable pub ota_verdict_name : OtaVerdict → Bytes
ota_verdict_name OtaVerdict.ok = codes "ok"
ota_verdict_name OtaVerdict.no_key = codes "no usable release key compiled in"
ota_verdict_name OtaVerdict.empty_image = codes "empty image"
ota_verdict_name OtaVerdict.size_mismatch = codes "image size does not match manifest"
ota_verdict_name OtaVerdict.bad_version = codes "version is not MAJOR.MINOR.PATCH"
ota_verdict_name OtaVerdict.bad_signature = codes "bad signature"

-- `OtaResult`, with the reason in the outcome.
pub data OtaResult : Type 0 where
  applied : OtaResult
  transient rejected : Bytes → OtaResult

abbrev pub ota_chunk : ℕ
ota_chunk = 4096

-- `SPI_FLASH_SEC_SIZE`
abbrev pub flash_sector : ℕ
flash_sector = 4096

-- `(size - done) < kOtaChunk ? (size - done) : kOtaChunk`
unfoldable pub next_chunk : ℕ → ℕ → ℕ
next_chunk size done = if ltb (size - done) ota_chunk then size - done else ota_chunk

-- Fuel for the two loops over an image: its number of chunks.
unfoldable pub chunk_rounds : ℕ → ℕ
chunk_rounds size = (size + 4095) / ota_chunk

-- The arguments of `applyOta` that describe the image.
pub record OtaOffer : Type 0 where
  pub version : Bytes
  pub size : ℕ
  pub sha256 : Bytes
  pub signature : Bytes

-- How the loop of the download ends.
pub data Download : Type 0 where
  stored truncated unwritten : Download

module _ (F : Partitions) (I : Input) where
  -- What `applyOta` changes; `readies` counts the calls of `ready`.
  pub record Updater : Type 0 where
    pub flash : F.Flash
    pub source : I.Source
    pub guard : OtaGuard
    pub readies : ℕ

  -- `esp_partition_erase_range`, whatever it answers.
  unfoldable pub invalidate_slot : F.Slot → Updater → Updater
  invalidate_slot slot u = record u { flash = F.erase_range u.flash slot 0 flash_sector }

  unfoldable pub tell_ready : Bool → Updater → Updater
  tell_ready ready u = if ready then record u { readies = u.readies + 1 } else u

  unfoldable pub download : ℕ → Bool → F.Handle → ℕ → ℕ → Updater → Download × Updater
  unfolding next_chunk tell_ready
  download zero ready handle size done u = (stored, u)
  download (suc n) ready handle size done u =
      let want = next_chunk size done in
      let (chunk, source) = I.read_bytes u.source want in
      let (ok, flash) = F.ota_write u.flash handle chunk in
      let u1 = record u { source = source } in
      let u2 = record u1 { flash = flash } in
      let after = done + want in
      elim (ltb done size) [
        | false ↦ (stored, u)
        | true ↦ elim (length chunk == want) [
          | false ↦ (truncated, u1)
          | true ↦ elim ok [
            | false ↦ (unwritten, u2)
            | true ↦ download n ready handle size after (tell_ready (ready && ltb after size) u2)
          ]
        ]
      ]

module _ (C : Crypto) (H : Sha256) (F : Partitions) where
  -- The loop that reads the slot back into the digest and the verifier.
  unfoldable pub read_back :
      ℕ → F.Flash → F.Slot → ℕ → ℕ → H.Ctx → ImageVerifier C → Option (H.Ctx × ImageVerifier C)
  unfolding next_chunk
  read_back zero f slot size off sha v = some (sha, v)
  read_back (suc n) f slot size off sha v = elim (ltb off size) [
    | false ↦ some (sha, v)
    | true ↦ elim (F.read f slot off (next_chunk size off)) [
      | none ↦ none
      | some chunk ↦
          read_back n f slot size (to_size (off + ota_chunk)) (H.update sha chunk) (feed C chunk v)
    ]
  ]

module _ (C : Crypto) (H : Sha256) (F : Partitions) (I : Input) where
  abbrev State : Type 0
  State = Updater F I

  -- The pending record, then the commit.
  unfoldable pub commit_image : Answers → F.Slot → OtaOffer → State → OtaResult × State
  unfolding invalidate_slot
  commit_image a slot offer u =
      let (noted, guard) = note_pending a offer.version offer.sha256 u.guard in
      let u1 = record u { guard = guard } in
      let (ok, flash) = F.set_boot u1.flash slot in
      let u2 = record u1 { flash = flash } in
      if not noted
      then (
        transient (codes "could not record the pending update in NVS"),
        invalidate_slot F I slot u1,
      )
      else if not ok
      then (
        transient (codes "esp_ota_set_boot_partition failed"),
        invalidate_slot F I slot (record u2 { guard = clear_pending a u2.guard }),
      )
      else (applied, u2)

  unfoldable pub judge_image :
      Answers → F.Slot → OtaOffer → Bytes → OtaVerdict → State → OtaResult × State
  judge_image a slot offer digest verdict u =
      if not (bytes_eq digest offer.sha256)
      then (rejected (codes "sha256 does not match manifest"), invalidate_slot F I slot u)
      else elim verdict [
        | OtaVerdict.ok ↦ commit_image a slot offer u
        | refused ↦ (rejected (ota_verdict_name refused), invalidate_slot F I slot u)
      ]

  unfoldable pub verify_slot : Bytes → Answers → F.Slot → OtaOffer → State → OtaResult × State
  verify_slot key a slot offer u =
      let verifier = open_verifier C key offer.signature offer.version offer.size in
      let rounds = chunk_rounds offer.size in
      elim (read_back C H F rounds u.flash slot offer.size 0 H.starts verifier) [
        | none ↦ (transient (codes "flash read-back failed"), invalidate_slot F I slot u)
        | some (sha, v) ↦ judge_image a slot offer (H.digest sha) (finish C v).0 u
      ]

  unfoldable pub end_image :
      Bytes → Answers → F.Slot → F.Handle → OtaOffer → Download × State → OtaResult × State
  end_image key a slot handle offer (truncated, u) = (
    transient (codes "download truncated"),
    invalidate_slot F I slot (record u { flash = F.ota_abort u.flash handle }),
  )
  end_image key a slot handle offer (unwritten, u) = (
    transient (codes "flash write failed"),
    invalidate_slot F I slot (record u { flash = F.ota_abort u.flash handle }),
  )
  end_image key a slot handle offer (stored, u) =
      let (ok, flash) = F.ota_end u.flash handle in
      let u1 = record u { flash = flash } in
      if ok
      then verify_slot key a slot offer u1
      else (rejected (codes "not a valid app image"), invalidate_slot F I slot u1)

  unfoldable pub write_image :
      Bytes → Answers → Bool → F.Slot → OtaOffer → State → OtaResult × State
  write_image key a ready slot offer u =
      let (begun, flash) = F.ota_begin u.flash slot offer.size in
      let u1 = record u { flash = flash } in
      elim begun [
        | none ↦ (transient (codes "esp_ota_begin failed"), u1)
        | some handle ↦ end_image key a slot handle offer (
            download F I (chunk_rounds offer.size) ready handle offer.size 0
              (tell_ready F I ready u1))
      ]

  -- `has_buffer` is what `new (std::nothrow)` answers, `ready` is that a callback is given.
  unfoldable pub apply_ota : Bytes → Answers → Bool → Bool → OtaOffer → State → OtaResult × State
  apply_ota key a has_buffer ready offer u =
      if is_unusable_key key
      then (rejected (codes "no usable release key compiled in"), u)
      else if offer.size == 0
      then (rejected (codes "empty image"), u)
      else elim (check u.guard offer.version offer.sha256) [
        | OtaCandidate.accept ↦ elim (F.next_update u.flash) [
          | none ↦ (rejected (codes "no idle OTA slot"), u)
          | some slot ↦
              if ltb (F.slot_size slot) offer.size
              then (rejected (codes "image larger than the OTA slot"), u)
              else if not has_buffer
              then (transient (codes "out of memory"), u)
              else write_image key a ready slot offer u
        ]
        | candidate ↦ (rejected (ota_candidate_name candidate), u)
      ]
