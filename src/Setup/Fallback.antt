-- ===== src/Setup/Fallback.antt =====
-- firmware/src/wifi_provision.h: class `StationFallback`, when a terminal that cannot join its
-- network opens the setup portal.
pub mod Timing
use presence_platform.Prelude.{
  ℕ, ◌-◌, ◌^◌, Bool, true, false, not, ◌||◌, leb, if◌then◌else◌, sub_u32,
}

pub record StationFallback : Type 0 where
  pub window_ms : ℕ
  pub window_start_ms : ℕ
  pub started : Bool
  pub joined : Bool

abbrev pub new_fallback : ℕ → StationFallback
new_fallback ms = record { window_ms = ms; window_start_ms = 0; started = false; joined = false }

unfoldable pub begin : ℕ → StationFallback → StationFallback
begin now_ms s = record s { started = true; joined = false; window_start_ms = now_ms }

unfoldable pub portal_due : Bool → ℕ → StationFallback → Bool × StationFallback
portal_due connected now_ms s =
    if not s.started || s.joined
    then (false, s)
    else if connected
    then (false, record s { joined = true })
    else (leb s.window_ms (sub_u32 now_ms s.window_start_ms), s)

unfoldable pub restart : ℕ → StationFallback → StationFallback
restart now_ms s = record s { window_start_ms = now_ms }

unfoldable pub ms_until_due : ℕ → StationFallback → ℕ
ms_until_due now_ms s =
    let elapsed = sub_u32 now_ms s.window_start_ms in
    if not s.started || s.joined
    then 2 ^ 32 - 1
    else if leb s.window_ms elapsed
    then 0
    else s.window_ms - elapsed
