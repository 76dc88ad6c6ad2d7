-- ===== src/Net/Round.antt =====
-- firmware/src/main.cpp: `netTask`, a round of a terminal that is connected and provisioned, and the
-- wait of one that is not connected.
pub mod Buffer
use presence_platform.Prelude.{
  ℕ, ◌+◌, ◌-◌, ◌≤◌, ◌<◌, ◌≡◌, ◌⊎◌, inl, inr, refl, sym, subst, ap, ◌∙◌, Bool, true, false, not,
  ◌&&◌, ◌||◌, Option, none, some, Bytes, codes, ◌==◌, ltb, leb, if◌then◌else◌, sub_u32, arith,
  Bool-cases,
}
use presence_platform.Ring.{Ring, depth}
use presence_platform.Setup.Fallback.{StationFallback, ms_until_due}
use presence_platform.Ota.Guard.{Answers, OtaGuard, on_healthy}
use presence_platform.Update.{applied}
use presence_platform.Net.{World, Draw, Reply, Node, signed_post}
use presence_platform.Net.Upload.{
  max_batch, post_batch, accept_ack, take_reply, flush_events, skew_clock,
}
use presence_platform.Net.Heartbeat.{
  heartbeat_body, adopt_backoff, adopt_available, accept_heartbeat, take_heartbeat, send_heartbeat,
  confirm_healthy,
}
use presence_platform.Net.Backoff.{backoff_min_ms, grow_backoff}
use presence_platform.Net.Firmware.{FirmwareCheck, rebooting, check_firmware}

abbrev pub heartbeat_ms : ℕ
heartbeat_ms = 60000

abbrev pub flush_ms : ℕ
flush_ms = 30000

-- `std::max(1000, std::min(g_backoffMs, msUntilDue(millis())))`
unfoldable pub offline_wait : ℕ → ℕ → StationFallback → ℕ
offline_wait backoff_ms now_ms fallback =
    let due = ms_until_due now_ms fallback in
    let wait = if ltb due backoff_ms then due else backoff_ms in
    if ltb wait 1000 then 1000 else wait

-- What the platform answers in a round.
pub record RoundInput : Type 0 where
  pub now_ms : ℕ
  pub random : ℕ
  pub has_buffer : Bool
  -- what `onHealthy` is answered, and the update check
  pub healthy_answers : Answers
  pub update_answers : Answers
  pub heartbeat_draw : Draw
  pub flush_draw : Draw
  pub manifest_draw : Draw
  pub image_draw : Draw

module _ (W : World) where
  pub record NetState : Type 0 where
    pub node : Node W
    pub last_heartbeat : ℕ
    pub last_flush : ℕ

  -- The heartbeat, whether it went well, and whether an update check is due.
  unfoldable pub heartbeat_part : RoundInput → NetState → Bool × Bool × NetState
  heartbeat_part i s =
      let (good, n) = send_heartbeat W i.heartbeat_draw s.node in
      let n1 = (if good then confirm_healthy W i.healthy_answers n else n) in
      if ltb heartbeat_ms (sub_u32 i.now_ms s.last_heartbeat)
      then (good, n1.firmware_available, record s { node = n1; last_heartbeat = i.now_ms })
      else (true, false, s)

  unfoldable pub flush_part : RoundInput → NetState → Bool × NetState
  flush_part i s =
      let (good, n) = flush_events W i.flush_draw s.node in
      if ltb flush_ms (sub_u32 i.now_ms s.last_flush) || leb max_batch (depth W.storage s.node.ring)
      then (good, record s { node = n; last_flush = i.now_ms })
      else (true, s)

  unfoldable pub firmware_part : RoundInput → Bool → NetState → FirmwareCheck × NetState
  firmware_part i due s =
      let (result, n) =
        check_firmware W i.update_answers i.has_buffer i.manifest_draw i.image_draw s.node in
      if due then (result, record s { node = n }) else (FirmwareCheck.settled, s)

  -- `ok ? resetBackoff() : growBackoff()`, and the wait.
  unfoldable pub end_round : RoundInput → Bool → NetState → ℕ × NetState
  end_round i ok s =
      let backoff = (if ok then backoff_min_ms else grow_backoff i.random s.node.backoff_ms) in
      (if ok then 1000 else backoff, record s { node = record s.node { backoff_ms = backoff } })

  -- The wait behind a round is `none` where it has rebooted into a new image.
  unfoldable pub work_round : RoundInput → NetState → Option ℕ × NetState
  work_round i s =
      let (good1, due, s1) = heartbeat_part i s in
      let (good2, s2) = flush_part i s1 in
      let (result, s3) = firmware_part i due s2 in
      let (wait, s4) = end_round i (good1 && good2) s3 in
      elim result [ rebooting ↦ (none, s3) | _ ↦ (some wait, s4) ]
