-- ===== src/Setup/Hold.antt =====
-- firmware/src/wifi_provision.h: class `HoldTrigger`, the BOOT button held down.
pub mod Presses
use presence_platform.Prelude.{ℕ, ◌+◌, Bool, true, false, not, ◌&&◌, leb, if◌then◌else◌, sub_u32}

pub record HoldTrigger : Type 0 where
  pub hold_ms : ℕ
  pub since_ms : ℕ
  pub armed : Bool
  pub holding : Bool
  pub fired : Bool

abbrev pub new_trigger : ℕ → HoldTrigger
new_trigger ms = record {
  hold_ms = ms;
  since_ms = 0;
  armed = false;
  holding = false;
  fired = false;
}

-- `if (!holding_) { holding_ = true; sinceMs_ = nowMs; }`
unfoldable pub start_hold : ℕ → HoldTrigger → HoldTrigger
start_hold now_ms h = if h.holding then h else record h { holding = true; since_ms = now_ms }

unfoldable pub update : Bool → ℕ → HoldTrigger → Bool × HoldTrigger
unfolding start_hold
update pressed now_ms h =
    let h1 = start_hold now_ms h in
    if not pressed
    then (false, record h { armed = true; holding = false; fired = false })
    else if not h.armed
    then (false, h)
    else if not h1.fired && leb h1.hold_ms (sub_u32 now_ms h1.since_ms)
    then (true, record h1 { fired = true })
    else (false, h1)
