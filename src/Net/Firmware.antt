-- ===== src/Net/Firmware.antt =====
-- firmware/src/main.cpp: `checkFirmware`, the update check of the network task.
pub mod Reboot
use presence_platform.Prelude.{
  ℕ, ◌^◌, Bool, true, false, not, ◌&&◌, Option, none, some, [], ◌++◌, Bytes, bytes_eq, codes, ◌==◌,
  ltb, if◌then◌else◌, to_size,
}
use presence_platform.Ota.Guard.{OtaCandidate, Answers, check}
use presence_platform.Ota.Manifest.{OtaManifest, ota_url_is_gateway_path, parse_ota_manifest}
use presence_platform.Update.{OtaResult, applied, transient, rejected, OtaOffer, Updater, apply_ota}
use presence_platform.Net.{
  World, Request, Draw, Reply, Node, api_base, add_auth_headers, signed_get,
}
use presence_platform.Net.Upload.{skew_clock}

-- `true`, `false`, or the reboot into the new image.
pub data FirmwareCheck : Type 0 where
  settled failed rebooting : FirmwareCheck

unfoldable pub offer_of : OtaManifest → OtaOffer
offer_of m = record {
  version = m.version;
  size = to_size m.size;
  sha256 = m.sha256;
  signature = m.signature;
}

unfoldable pub is_refused_sha : Option Bytes → Bytes → Bool
is_refused_sha none sha = false
is_refused_sha (some refused) sha = bytes_eq sha refused

-- `contentLength >= 0 && contentLength != m.size`, the length a 32-bit pattern.
unfoldable pub wrong_length : ℕ → ℕ → Bool
wrong_length content_length size = ltb content_length (2 ^ 31) && not (content_length == size)

module _ (W : World) where
  unfoldable pub image_request : OtaManifest → Draw → Node W → Request
  image_request m d n =
      if ota_url_is_gateway_path m.url
      then record {
        method = codes "GET";
        url = api_base ++ m.url;
        headers = add_auth_headers W (codes "GET") m.url [] d n;
        body = [];
      }
      else record { method = codes "GET"; url = m.url; headers = []; body = [] }

  unfoldable pub updater_of : W.input.Source → Node W → Updater W.partitions W.input
  updater_of source n = record { flash = n.flash; source = source; guard = n.guard; readies = 0 }

  -- What is left of an update in the variables of main.cpp.
  unfoldable pub after_update :
      OtaManifest → OtaResult × Updater W.partitions W.input → Node W → FirmwareCheck × Node W
  after_update m (result, u) n =
      let n1 = record n { flash = u.flash; guard = u.guard } in
      elim result [
        | applied ↦ (rebooting, n1)
        | transient reason ↦ (failed, n1)
        | rejected reason ↦ (failed, record n1 { rejected_sha = some m.sha256 })
      ]

  -- `a` is what NVS answers, `has_buffer` what the allocation does.
  unfoldable pub download_image :
      Answers → Bool → OtaManifest → Draw → Node W → FirmwareCheck × Node W
  download_image a has_buffer m d n =
      let (code, content_length, source, link) = W.fetch n.link (image_request m d n) in
      let n1 = record n { link = link } in
      let update =
        apply_ota W.crypto W.hash W.partitions W.input W.release_key a has_buffer false (offer_of m)
          (updater_of source n1) in
      if not (code == 200)
      then (failed, n1)
      else if wrong_length content_length m.size
      then (failed, n1)
      else after_update m update n1

  unfoldable pub take_manifest :
      Answers → Bool → OtaManifest → Draw → Node W → FirmwareCheck × Node W
  take_manifest a has_buffer m d n =
      if not m.available
      then (settled, record n { firmware_available = false })
      else if is_refused_sha n.rejected_sha m.sha256
      then (settled, n)
      else elim (check n.guard m.version m.sha256) [
        | OtaCandidate.accept ↦ download_image a has_buffer m d n
        | _ ↦ (settled, record n { firmware_available = false })
      ]

  -- Two draws: for the request of the manifest and for that of the image.
  unfoldable pub check_firmware : Answers → Bool → Draw → Draw → Node W → FirmwareCheck × Node W
  check_firmware a has_buffer d1 d2 n =
      let (reply, sent) =
        signed_get W (codes "/v1/device/firmware") (codes "current=" ++ W.firmware_version) d1 n in
      if reply.code == 401
      then (failed, skew_clock W d1 reply.response sent)
      else if reply.code == 200
      then elim (parse_ota_manifest reply.response) [
        | none ↦ (failed, sent)
        | some m ↦ take_manifest a has_buffer m d2 sent
      ]
      else (failed, sent)
