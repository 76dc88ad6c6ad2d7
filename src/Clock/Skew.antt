-- ===== src/Clock/Skew.antt =====
-- firmware/src/main.cpp: the time that `handleClockSkew` leaves the terminal with.
use presence_platform.Prelude.{
  ℕ, ◌+◌, ◌*◌, ◌/◌, ◌≤◌, ◌<◌, ◌≡◌, inl, inr, Bool, true, false, some, Bytes, codes, u32_mod,
  sub_u64, arith, Bool-cases,
}
use presence_platform.Json.{parse_json_int}
use presence_platform.Clock.{
  Rtc, Clock, negative, to_seconds, beyond_a_minute, rtc_ms, now_epoch_ms, put_offset, adopt_time,
  handle_clock_skew, adopt_first_time, start_clock,
}

-- The chip keeps the seconds that it is set to, in 32 bits.
pub record IsRtc (R : Rtc) : Type 0 where
  pub unixtime_bound : (c : R.Chip) → R.unixtime c < u32_mod
  pub unixtime-adjust : (c : R.Chip) (t : ℕ) → t < u32_mod → R.unixtime (R.adjust c t) ≡ t

module _ (R : Rtc) where
  -- The time is the server's, to the second.
  pub record IsCorrected (server_ms : ℕ) (c : Clock R) : Type 0 where
    pub trusted : c.trusted ≡ true
    pub not_ahead : now_epoch_ms R c ≤ server_ms
    pub not_behind : server_ms < now_epoch_ms R c + 1000

  adopt_near :
      (w1 w2 : Bool) (s : ℕ) (c : Clock R)
      → IsRtc R
      → s < 1000 * u32_mod
      → beyond_a_minute (sub_u64 s (rtc_ms R c.chip)) ≡ false
      → now_epoch_ms R (adopt_time R w1 w2 s c) ≡ s
  unfolding adopt_time put_offset now_epoch_ms rtc_ms
  adopt_near w1 w2 s c P small h = ground (arith, P.unixtime_bound c.chip)

  adopt_far :
      (w1 w2 : Bool) (s : ℕ) (c : Clock R)
      → IsRtc R
      → s < 1000 * u32_mod
      → beyond_a_minute (sub_u64 s (rtc_ms R c.chip)) ≡ true
      → now_epoch_ms R (adopt_time R w1 w2 s c) ≡ (s / 1000) * 1000
  unfolding adopt_time put_offset now_epoch_ms rtc_ms to_seconds negative
  adopt_far w1 w2 s c P small h =
      ground (arith, P.unixtime-adjust c.chip (s / 1000) (omega arith), P.unixtime_bound c.chip)

  adopt_time_trusted :
      (w1 w2 : Bool) (s : ℕ) (c : Clock R) → (adopt_time R w1 w2 s c).trusted ≡ true
  unfolding adopt_time put_offset
  adopt_time_trusted w1 w2 s c = ground arith

  adopt-IsCorrected :
      (w1 w2 : Bool) (s : ℕ) (c : Clock R)
      → IsRtc R
      → s < 1000 * u32_mod
      → IsCorrected s (adopt_time R w1 w2 s c)
  adopt-IsCorrected w1 w2 s c P small =
      let trusted = adopt_time_trusted w1 w2 s c in
      elim (Bool-cases (beyond_a_minute (sub_u64 s (rtc_ms R c.chip)))) [
        | inl h ↦
            let now = adopt_far w1 w2 s c P small h in
            record { trusted = trusted; not_ahead = omega arith; not_behind = omega arith }
        | inr h ↦
            let now = adopt_near w1 w2 s c P small h in
            record { trusted = trusted; not_ahead = omega arith; not_behind = omega arith }
      ]

  -- With a chip that keeps the 32-bit seconds it is set to: behind a rejected request whose
  -- answer carries the server's time in milliseconds, below 1000 * 2^32, the clock is trusted,
  -- and it is at most the server's time and less than a second behind it, whether or not NVS
  -- takes the writes.
  pub handle_clock_skew-IsCorrected :
      IsRtc R
      → (w1 w2 : Bool) (response : Bytes) (s : ℕ) (c : Clock R)
      → parse_json_int response (codes "server_time_ms") ≡ some s
      → s < 1000 * u32_mod
      → IsCorrected s (handle_clock_skew R w1 w2 response c)
  unfolding handle_clock_skew
  handle_clock_skew-IsCorrected P w1 w2 response s c e small =
      rw (handle_clock_skew, e) (adopt-IsCorrected w1 w2 s c P small)

  -- Where both writes to NVS succeed, a reboot with a running RTC starts with the same clock.
  pub start_clock-adopt_time :
      (s : ℕ) (c : Clock R)
      → let after = adopt_time R true true s c in
        start_clock R true false after.chip after.saved_offset ≡ after
  unfolding start_clock adopt_time put_offset
  start_clock-adopt_time s c = ground arith

  -- A reply to a heartbeat sets the RTC of a clock that is not trusted, and leaves a stale offset
  -- in NVS, which the next reboot adds to the RTC.
  pub start_clock-adopt_first_time :
      (response : Bytes) (s stale : ℕ) (c : Clock R)
      → parse_json_int response (codes "server_time_ms") ≡ some s
      → c.trusted ≡ false
      → c.saved_offset ≡ some stale
      → let after = adopt_first_time R response c in
        (after.offset ≡ 0)
        × ((start_clock R true false after.chip after.saved_offset).offset ≡ stale)
  unfolding start_clock adopt_first_time
  start_clock-adopt_first_time response s stale c e t h = (ground arith, ground arith)
