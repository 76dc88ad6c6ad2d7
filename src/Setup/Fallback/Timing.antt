-- ===== src/Setup/Fallback/Timing.antt =====
-- When the portal is due, and that it never is once the station has joined.
use presence_platform.Prelude.{
  ℕ, ◌+◌, ◌%◌, ◌≤◌, ◌<◌, ◌≡◌, refl, Bool, true, false, List, [], ◌∷◌, replicate, not, ◌||◌, ◌==◌,
  u32_mod, arith,
}
use presence_platform.Setup.Fallback.{StationFallback, portal_due, restart, ms_until_due}

-- For a started station that has not joined, with 32-bit times, the portal is not due before
-- the delay that `msUntilDue` announces and is due exactly when it is over, also across a wrap
-- of the clock.
pub due_when_announced :
    (s : StationFallback) (now_ms k : ℕ)
    → s.started ≡ true
    → s.joined ≡ false
    → s.window_ms < u32_mod
    → s.window_start_ms < u32_mod
    → now_ms < u32_mod
    → k ≤ ms_until_due now_ms s
    → (portal_due false ((now_ms + k) % u32_mod) s).0 ≡ (k == ms_until_due now_ms s)
unfolding portal_due ms_until_due
due_when_announced s now_ms k started joined hw hs hn hk = ground arith

-- The calls of the network task.
pub data Call : Type 0 where
  polls : Bool → ℕ → Call
  restarts : ℕ → Call

-- The answers of the polls in a sequence of calls.
unfoldable pub answers : List Call → StationFallback → List Bool
answers [] s = []
answers (polls connected now_ms ∷ cs) s =
    let (due, s1) = portal_due connected now_ms s in due ∷ answers cs s1
answers (restarts now_ms ∷ cs) s = answers cs (restart now_ms s)

unfoldable pub polls_in : List Call → ℕ
polls_in [] = 0
polls_in (polls connected now_ms ∷ cs) = 1 + polls_in cs
polls_in (restarts now_ms ∷ cs) = polls_in cs

-- A poll and a restart leave a station that is done with the portal done with it.
quiet :
    (cs : List Call) (s : StationFallback)
    → (not s.started || s.joined) ≡ true
    → answers cs s ≡ replicate (polls_in cs) false
unfolding answers polls_in portal_due restart
quiet [] s h = refl
quiet (polls connected now_ms ∷ cs) s h = ground (arith, quiet cs s h)
quiet (restarts now_ms ∷ cs) s h = quiet cs (restart now_ms s) h

-- From the first poll that finds the station connected on, no poll reports the portal as due,
-- whatever polls and restarts of the window follow.
pub joined_for_good :
    (now_ms : ℕ) (cs : List Call) (s : StationFallback)
    → answers (polls true now_ms ∷ cs) s ≡ replicate (1 + polls_in cs) false
unfolding answers portal_due
joined_for_good now_ms cs s = ground (arith, quiet cs s, quiet cs (record s { joined = true }))
