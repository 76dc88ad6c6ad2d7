-- ===== src/Net/Round/Buffer.antt =====
-- firmware/src/main.cpp: what a round of `netTask` takes out of the buffer, and when it confirms an
-- image.
use presence_platform.Prelude.{
  ◌≡◌, ◌⊎◌, inl, inr, sym, subst, ◌∙◌, Bool, ◌++◌, Bytes, codes, arith, Option-cases,
}
use presence_platform.Storage.{IsReliable}
use presence_platform.Ring.Inv.{IsValid}
use presence_platform.Ota.Guard.{Answers}
use presence_platform.Ota.Manifest.{OtaManifest, parse_ota_manifest}
use presence_platform.Net.{World, Draw, Reply, Node, signed_post, signed_get}
use presence_platform.Net.Upload.{skew_clock, flush_events}
use presence_platform.Net.Acked.{OnlyAcked, reply_of, flush_events-OnlyAcked}
use presence_platform.Net.Heartbeat.{
  heartbeat_body, adopt_backoff, adopt_available, accept_heartbeat, take_heartbeat, send_heartbeat,
  confirm_healthy,
}
use presence_platform.Net.Firmware.{after_update, download_image, take_manifest, check_firmware}
use presence_platform.Net.Round.{
  RoundInput, NetState, heartbeat_part, flush_part, firmware_part, end_round, work_round,
}

module _ (W : World) where
  accept_heartbeat-ring :
      (response : Bytes) (n : Node W) → (accept_heartbeat W response n).ring ≡ n.ring
  unfolding accept_heartbeat adopt_backoff adopt_available
  accept_heartbeat-ring response n = ground arith

  send_heartbeat-ring : (d : Draw) (n : Node W) → (send_heartbeat W d n).1.ring ≡ n.ring
  unfolding send_heartbeat take_heartbeat skew_clock signed_post
  send_heartbeat-ring d n =
      let (reply, link) = signed_post W (codes "/v1/device/heartbeat") (heartbeat_body W d n) d n in
      ground (arith, accept_heartbeat-ring reply.response link)

  heartbeat_part-ring :
      (i : RoundInput) (s : NetState W) → (heartbeat_part W i s).2.node.ring ≡ s.node.ring
  unfolding heartbeat_part confirm_healthy
  heartbeat_part-ring i s = ground (arith, send_heartbeat-ring i.heartbeat_draw s.node)

  download-ring :
      (a : Answers) (b : Bool) (m : OtaManifest) (d : Draw) (n : Node W)
      → (download_image W a b m d n).1.ring ≡ n.ring
  unfolding download_image after_update
  download-ring a b m d n = ground arith

  take_manifest-ring :
      (a : Answers) (b : Bool) (m : OtaManifest) (d : Draw) (n : Node W)
      → (take_manifest W a b m d n).1.ring ≡ n.ring
  unfolding take_manifest
  take_manifest-ring a b m d n = ground (arith, download-ring a b m d n)

  check_firmware-ring :
      (a : Answers) (b : Bool) (d1 d2 : Draw) (n : Node W)
      → (check_firmware W a b d1 d2 n).1.ring ≡ n.ring
  unfolding check_firmware skew_clock signed_get
  check_firmware-ring a b d1 d2 n =
      let sent : Reply × Node W =
        signed_get W (codes "/v1/device/firmware") (codes "current=" ++ W.firmware_version) d1 n in
      elim (Option-cases (parse_ota_manifest sent.0.response)) [
        | inl e ↦ ground arith
        | inr (m, e) ↦ ground (arith, take_manifest-ring a b m d2 sent.1)
      ]

  firmware_part-ring :
      (i : RoundInput) (due : Bool) (s : NetState W)
      → (firmware_part W i due s).1.node.ring ≡ s.node.ring
  unfolding firmware_part
  firmware_part-ring i due s =
      ground (
        arith,
        check_firmware-ring i.update_answers i.has_buffer i.manifest_draw i.image_draw s.node,
      )

  -- The state that the upload of a round starts from.
  abbrev pub before_flush : RoundInput → NetState W → Node W
  before_flush i s = (heartbeat_part W i s).2.node

  flush_part-ring :
      (i : RoundInput) (s : NetState W)
      → ((flush_part W i s).1.node.ring ≡ s.node.ring)
        ⊎ ((flush_part W i s).1.node.ring ≡ (flush_events W i.flush_draw s.node).1.ring)
  unfolding flush_part
  flush_part-ring i s = ground arith

  work_round-ring :
      (i : RoundInput) (s : NetState W)
      → (work_round W i s).1.node.ring ≡ (flush_part W i (heartbeat_part W i s).2).1.node.ring
  unfolding work_round end_round
  work_round-ring i s =
      let (good1, due, s1) = heartbeat_part W i s in
      ground (arith, firmware_part-ring i due (flush_part W i s1).1)

  -- Over a storage that keeps what it promises and a ring with the invariant, a round of the
  -- network task leaves the ring alone, or leaves the ring of the flush in it; and that one is
  -- unchanged, or its answer was 200 with an acknowledgement between 1 and 2^63 - 1 and it has
  -- dropped the longest run of leading slots that are torn or hold a record up to the
  -- acknowledgement, and nothing else.
  pub work_round-OnlyAcked :
      IsReliable W.storage
      → (i : RoundInput) (s : NetState W) → IsValid W.storage s.node.ring
      → let n = before_flush i s in
        ((work_round W i s).1.node.ring ≡ s.node.ring)
        ⊎ (((work_round W i s).1.node.ring ≡ (flush_events W i.flush_draw n).1.ring)
            × OnlyAcked W (reply_of W i.flush_draw n) s.node.ring (flush_events W i.flush_draw n))
  work_round-OnlyAcked R i s v =
      let same = heartbeat_part-ring i s in
      let n = before_flush i s in
      elim (flush_part-ring i (heartbeat_part W i s).2) [
        | inl kept ↦ inl (work_round-ring i s ∙ kept ∙ same)
        | inr flushed ↦ inr (
          work_round-ring i s ∙ flushed,
          subst (λ r. OnlyAcked W (reply_of W i.flush_draw n) r (flush_events W i.flush_draw n))
              same
              (flush_events-OnlyAcked W R i.flush_draw n (subst (IsValid W.storage) (sym same) v)),
        )
      ]
