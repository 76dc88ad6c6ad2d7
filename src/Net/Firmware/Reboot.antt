-- ===== src/Net/Firmware/Reboot.antt =====
-- firmware/src/main.cpp: what `checkFirmware` has made sure of when it reboots.
use presence_platform.Prelude.{
  ◌+◌, ◌<◌, ◌≡◌, sym, subst, ap, ◌∙◌, Bool, false, some, codes, ◌++◌, size_mod, arith, inl, inr,
  Option-cases,
}
use mathlib.Core.Option.{some-injective}
use presence_platform.Ota.Guard.{Answers}
use presence_platform.Ota.Guard.Check.{IsNewer}
use presence_platform.Ota.Image.Chunks.{IsStreaming}
use presence_platform.Ota.Manifest.{OtaManifest, parse_ota_manifest}
use presence_platform.Update.{OtaResult, applied, ota_chunk, Updater, apply_ota}
use presence_platform.Update.ReadBack.{IsPartitioned, IsIncremental}
use presence_platform.Update.Applied.{IsInstalled, apply_ota-IsInstalled}
use presence_platform.Net.{World, Draw, Reply, Node, signed_get}
use presence_platform.Net.Firmware.{
  rebooting, offer_of, updater_of, image_request, after_update, download_image, take_manifest,
  check_firmware,
}

module _ (W : World) where
  -- A reboot comes from an update that was applied.
  abbrev pub update_of :
      Answers → Bool → OtaManifest → Draw → Node W → OtaResult × Updater W.partitions W.input
  update_of a has_buffer m d n =
      let (code, content_length, source, link) = W.fetch n.link (image_request W m d n) in
      apply_ota W.crypto W.hash W.partitions W.input W.release_key a has_buffer false (offer_of m)
        (updater_of W source (record n { link = link }))

  download_rebooting :
      (a : Answers) (has_buffer : Bool) (m : OtaManifest) (d : Draw) (n : Node W)
      → (download_image W a has_buffer m d n).0 ≡ rebooting
      → let r = update_of a has_buffer m d n in
        (r.0 ≡ applied)
        × ((download_image W a has_buffer m d n).1.flash ≡ r.1.flash)
        × ((download_image W a has_buffer m d n).1.guard ≡ r.1.guard)
  unfolding download_image after_update
  download_rebooting a has_buffer m d n h = ground arith

  take_rebooting :
      (a : Answers) (has_buffer : Bool) (m : OtaManifest) (d : Draw) (n : Node W)
      → (take_manifest W a has_buffer m d n).0 ≡ rebooting
      → take_manifest W a has_buffer m d n ≡ download_image W a has_buffer m d n
  unfolding take_manifest
  take_rebooting a has_buffer m d n h = ground arith

  -- The answer to the request of a manifest.
  abbrev pub manifest_reply : Draw → Node W → Reply × Node W
  manifest_reply d n =
      signed_get W (codes "/v1/device/firmware") (codes "current=" ++ W.firmware_version) d n

  check_rebooting :
      (a : Answers) (has_buffer : Bool) (d1 d2 : Draw) (n : Node W)
      → (check_firmware W a has_buffer d1 d2 n).0 ≡ rebooting
      → let (reply, sent) = manifest_reply d1 n in
        (m : OtaManifest) × (parse_ota_manifest reply.response ≡ some m)
        × (check_firmware W a has_buffer d1 d2 n ≡ take_manifest W a has_buffer m d2 sent)
  unfolding check_firmware
  check_rebooting a has_buffer d1 d2 n h =
      elim (Option-cases (parse_ota_manifest (manifest_reply d1 n).0.response)) [
        | inl e ↦ absurd (ground arith)
        | inr (m, e) ↦ (m, e, ground arith)
      ]

  -- Under the conditions of apply_ota-IsInstalled, if an update check whose manifest parses
  -- reboots, then the version guard found the version of that manifest newer, and the flash and
  -- NVS that it leaves are those of an installed update of that manifest, checked with the
  -- release key.
  pub check_firmware-IsInstalled :
      IsStreaming W.crypto
      → IsIncremental W.hash
      → IsPartitioned W.partitions
      → (a : Answers) (has_buffer : Bool) (d1 d2 : Draw) (n : Node W) (m : OtaManifest)
      → parse_ota_manifest (manifest_reply d1 n).0.response ≡ some m
      → (offer_of m).size + ota_chunk < size_mod
      → (check_firmware W a has_buffer d1 d2 n).0 ≡ rebooting
      → let after = (check_firmware W a has_buffer d1 d2 n).1 in
        IsNewer n.guard m.version m.sha256
        × IsInstalled W.crypto W.hash W.partitions W.release_key
            (offer_of m)
            after.flash
            after.guard
  unfolding offer_of updater_of signed_get
  check_firmware-IsInstalled C H P a has_buffer d1 d2 n m parsed small h =
      let (m2, parsed2, checked) = check_rebooting a has_buffer d1 d2 n h in
      let sent = (manifest_reply d1 n).1 in
      let same : m2 ≡ m = some-injective _ _ (sym parsed2 ∙ parsed) in
      let taken : check_firmware W a has_buffer d1 d2 n ≡ take_manifest W a has_buffer m d2 sent =
        checked ∙ ap (λ x. take_manifest W a has_buffer x d2 sent) same in
      let loaded = taken ∙ take_rebooting a has_buffer m d2 sent (ap (λ x. x.0) (sym taken) ∙ h) in
      let (done, flash, guard) =
        download_rebooting a has_buffer m d2 sent (ap (λ x. x.0) (sym loaded) ∙ h) in
      let (code, content_length, source, link) = W.fetch sent.link (image_request W m d2 sent) in
      let (newer, installed) =
        apply_ota-IsInstalled W.crypto W.hash W.partitions W.input C H P W.release_key a has_buffer
          false (offer_of m) (updater_of W source (record sent { link = link })) small done in
      (
        newer,
        subst
            (λ f.
              IsInstalled W.crypto W.hash W.partitions W.release_key (offer_of m) f
                (check_firmware W a has_buffer d1 d2 n).1.guard)
            (sym (ap (λ x. x.1.flash) loaded ∙ flash))
            (subst
              (λ g.
                IsInstalled W.crypto W.hash W.partitions W.release_key (offer_of m)
                  (update_of a has_buffer m d2 sent).1.flash g)
              (sym (ap (λ x. x.1.guard) loaded ∙ guard)) installed),
      )
