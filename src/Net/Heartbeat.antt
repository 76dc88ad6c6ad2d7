-- ===== src/Net/Heartbeat.antt =====
-- firmware/src/main.cpp: `sendHeartbeat` and `confirmHealthy`.
use presence_platform.Prelude.{
  ℕ, ◌*◌, ◌%◌, Bool, true, false, not, ◌&&◌, none, some, ◌++◌, Bytes, codes, ◌==◌, ltb,
  if◌then◌else◌, u32_mod,
}
use presence_platform.Decimal.{json_int}
use presence_platform.Json.{parse_json_int, parse_json_bool}
use presence_platform.Ring.{depth}
use presence_platform.Clock.{negative, adopt_first_time}
use presence_platform.Ota.Guard.{Answers, on_healthy}
use presence_platform.Net.{World, Draw, Reply, Node, signed_post}
use presence_platform.Net.Upload.{skew_clock}

unfoldable pub bool_text : Bool → Bytes
bool_text true = codes "true"
bool_text false = codes "false"

-- `v > 0` of a pattern.
unfoldable pub above_zero : ℕ → Bool
unfolding negative
above_zero v = not (negative v) && ltb 0 v

module _ (W : World) where
  unfoldable pub heartbeat_body : Draw → Node W → Bytes
  heartbeat_body d n =
      codes "{\"firmware_version\":\""
      ++ W.firmware_version
      ++ codes "\",\"uptime_ms\":"
      ++ json_int d.uptime_ms
      ++ codes ",\"buffer_depth\":"
      ++ json_int (depth W.storage n.ring)
      ++ codes ",\"last_seq\":"
      ++ json_int n.seq
      ++ codes ",\"rssi\":"
      ++ json_int d.rssi
      ++ codes ",\"free_heap\":"
      ++ json_int d.free_heap
      ++ codes ",\"sensor_ok\":"
      ++ bool_text n.status.sensor_ok
      ++ codes ",\"rtc_ok\":"
      ++ bool_text n.clock.trusted
      ++ codes "}"

  -- `static_cast<uint32_t>(v) * 1000` where the server asks for a pause.
  unfoldable pub adopt_backoff : Bytes → Node W → Node W
  adopt_backoff response n = elim (parse_json_int response (codes "backoff_s")) [
    | none ↦ n
    | some v ↦
        if above_zero v then record n { backoff_ms = ((v % u32_mod) * 1000) % u32_mod } else n
  ]

  unfoldable pub adopt_available : Bytes → Node W → Node W
  adopt_available response n = elim (parse_json_bool response (codes "firmware_available")) [
    | none ↦ n
    | some available ↦ record n { firmware_available = available }
  ]

  -- What an answer 200 changes.
  unfoldable pub accept_heartbeat : Bytes → Node W → Node W
  accept_heartbeat response n =
      adopt_available response
        (adopt_backoff response (record n { clock = adopt_first_time W.rtc response n.clock }))

  unfoldable pub take_heartbeat : Draw → Reply → Node W → Bool × Node W
  take_heartbeat d reply n =
      if reply.code == 401
      then (false, skew_clock W d reply.response n)
      else if reply.code == 200
      then (true, accept_heartbeat reply.response n)
      else (false, n)

  unfoldable pub send_heartbeat : Draw → Node W → Bool × Node W
  send_heartbeat d n =
      let (reply, sent) = signed_post W (codes "/v1/device/heartbeat") (heartbeat_body d n) d n in
      take_heartbeat d reply sent

  unfoldable pub confirm_healthy : Answers → Node W → Node W
  confirm_healthy a n = record n { guard = on_healthy a n.guard }
