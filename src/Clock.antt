-- ===== src/Clock.antt =====
-- firmware/src/main.cpp: the clock of the terminal: `nowEpochMs`, `timeSourceCode`, `handleClockSkew`,
-- and what `setup` makes of the RTC and of NVS. The RTC chip is the parameter `Rtc`; a 64-bit signed
-- number is its pattern, a number below 2^64.
pub mod Skew
use presence_platform.Prelude.{
  ℕ, ◌+◌, ◌-◌, ◌*◌, ◌/◌, ◌%◌, ◌^◌, Bool, true, false, not, ◌&&◌, ◌||◌, Option, none, some, Bytes,
  codes, ◌==◌, ltb, if◌then◌else◌, u32_mod, u64_mod, add_u64, sub_u64,
}
use presence_platform.Json.{parse_json_int}

-- `g_rtc.now().unixtime()` and `g_rtc.adjust(DateTime(t))`.
pub record Rtc : Type 1 where
  pub Chip : Type 0
  pub unixtime : Chip → ℕ
  pub adjust : Chip → ℕ → Chip

-- `v < 0` of a pattern.
unfoldable pub negative : ℕ → Bool
negative v = not (ltb v (2 ^ 63))

-- `static_cast<uint32_t>(ms / 1000)`, a division that rounds to zero.
unfoldable pub to_seconds : ℕ → ℕ
unfolding negative
to_seconds ms =
    if negative ms
    then (u32_mod - ((u64_mod - ms) / 1000) % u32_mod) % u32_mod
    else (ms / 1000) % u32_mod

-- `offset > 60'000 || offset < -60'000`
unfoldable pub beyond_a_minute : ℕ → Bool
unfolding negative
beyond_a_minute offset = if negative offset then ltb offset (u64_mod - 60000) else ltb 60000 offset

module _ (R : Rtc) where
  -- `g_rtc`, `g_rtcOffsetMs`, `g_rtcTrusted`, and the entry `rtc_offset` of NVS.
  pub record Clock : Type 0 where
    pub chip : R.Chip
    pub offset : ℕ
    pub trusted : Bool
    pub saved_offset : Option ℕ

  -- `static_cast<int64_t>(g_rtc.now().unixtime()) * 1000`
  unfoldable pub rtc_ms : R.Chip → ℕ
  rtc_ms chip = (R.unixtime chip * 1000) % u64_mod

  unfoldable pub now_epoch_ms : Clock → ℕ
  unfolding rtc_ms
  now_epoch_ms c = if c.trusted then add_u64 (rtc_ms c.chip) c.offset else 0

  unfoldable pub time_source_code : Clock → ℕ
  time_source_code c = if not c.trusted then 2 else if c.offset == 0 then 0 else 1

  -- `g_nvs.putLong64("rtc_offset", ...)`, whose answer nobody reads.
  unfoldable pub put_offset : Bool → ℕ → Clock → Clock
  put_offset written offset c = if written then record c { saved_offset = some offset } else c

  unfoldable pub adopt_time : Bool → Bool → ℕ → Clock → Clock
  unfolding rtc_ms put_offset
  adopt_time first_write second_write server_ms c =
      let offset = sub_u64 server_ms (rtc_ms c.chip) in
      let c1 = put_offset first_write offset (record c { offset = offset; trusted = true }) in
      if beyond_a_minute offset
      then put_offset second_write 0
          (record c1 { chip = R.adjust c1.chip (to_seconds server_ms); offset = 0 })
      else c1

  -- The two writes are what NVS answers to the two calls of `putLong64`.
  unfoldable pub handle_clock_skew : Bool → Bool → Bytes → Clock → Clock
  handle_clock_skew first_write second_write response c =
      elim (parse_json_int response (codes "server_time_ms")) [
        | none ↦ c
        | some server_ms ↦ adopt_time first_write second_write server_ms c
      ]

  -- What `sendHeartbeat` does with the time of a reply: adopted only by a clock not trusted yet.
  unfoldable pub adopt_first_time : Bytes → Clock → Clock
  adopt_first_time response c = elim (parse_json_int response (codes "server_time_ms")) [
    | none ↦ c
    | some server_ms ↦
        if c.trusted
        then c
        else record c { chip = R.adjust c.chip (to_seconds server_ms); offset = 0; trusted = true }
  ]

  -- `g_rtc.begin() && !g_rtc.lostPower()`, then `getLong64("rtc_offset", 0)`.
  unfoldable pub start_clock : Bool → Bool → R.Chip → Option ℕ → Clock
  start_clock begun lost_power chip saved = record {
    chip = chip;
    offset = elim saved [ none ↦ 0 | some offset ↦ offset ];
    trusted = begun && not lost_power;
    saved_offset = saved;
  }
