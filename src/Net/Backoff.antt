-- ===== src/Net/Backoff.antt =====
-- firmware/src/main.cpp: `resetBackoff`, `growBackoff` and `netSleep`.
use presence_platform.Prelude.{
  ℕ, zero, suc, ◌+◌, ◌-◌, ◌*◌, ◌/◌, ◌%◌, ◌≤◌, ◌<◌, ◌≡◌, ◌⊎◌, refl, false, List, [], ◌∷◌, ltb, min,
  if◌then◌else◌, u32_mod, arith, All,
}
use presence_platform.Ota.Guard.{Answers, OtaGuard, save, call, tick}

abbrev pub backoff_min_ms : ℕ
backoff_min_ms = 5000

abbrev pub backoff_max_ms : ℕ
backoff_max_ms = 300000

-- `min(g_backoffMs * 2, kBackoffMaxMs)`, and what `esp_random` adds to it.
unfoldable pub grow_backoff : ℕ → ℕ → ℕ
grow_backoff random ms =
    let doubled = (ms * 2) % u32_mod in
    let base = if ltb doubled backoff_max_ms then doubled else backoff_max_ms in
    (base + random % (base / 4 + 1)) % u32_mod

-- `reset` after a round that went well, a random word after one that did not.
pub data BackoffStep : Type 0 where
  reset : BackoffStep
  grow : ℕ → BackoffStep

unfoldable pub backoff_after : List BackoffStep → ℕ → ℕ
unfolding grow_backoff
backoff_after [] ms = ms
backoff_after (reset ∷ steps) ms = backoff_after steps backoff_min_ms
backoff_after (grow random ∷ steps) ms = backoff_after steps (grow_backoff random ms)

abbrev pub InBounds : ℕ → Type 0
InBounds ms = (backoff_min_ms ≤ ms) × (ms ≤ backoff_max_ms + backoff_max_ms / 4)

grow_backoff-InBounds : (random ms : ℕ) → InBounds ms → InBounds (grow_backoff random ms)
unfolding grow_backoff
grow_backoff-InBounds random ms (lo, hi) = ground arith

-- Any sequence of growths and resets keeps the wait between its least and its most.
pub backoff_after-InBounds :
    (steps : List BackoffStep) (ms : ℕ) → InBounds ms → InBounds (backoff_after steps ms)
unfolding backoff_after
backoff_after-InBounds [] ms h = h
backoff_after-InBounds (reset ∷ steps) ms h =
    backoff_after-InBounds steps backoff_min_ms (omega arith, omega arith)
backoff_after-InBounds (grow random ∷ steps) ms h =
    backoff_after-InBounds steps (grow_backoff random ms) (grow_backoff-InBounds random ms h)

-- `awaitingConfirm() ? min(ms, 1000) : ms`
unfoldable pub sleep_step : OtaGuard → ℕ → ℕ
sleep_step g ms = if g.awaiting then min ms 1000 else ms

-- The `tick` behind a delay.
unfoldable pub tick_awaiting : Answers → ℕ → OtaGuard → OtaGuard
tick_awaiting a now g = if g.awaiting then tick a now g else g

-- The delays of `netSleep` and the guard behind them. Fuel for one round per second and one more;
-- `now` is `millis()`.
unfoldable pub net_sleep : ℕ → Answers → ℕ → ℕ → OtaGuard → List ℕ × OtaGuard
net_sleep zero a ms now g = ([], g)
net_sleep (suc n) a ms now g =
    let step = sleep_step g ms in
    let later = (now + step) % u32_mod in
    let (steps, after) = net_sleep n a (ms - step) later (tick_awaiting a later g) in
    if ltb 0 ms then (step ∷ steps, after) else ([], g)

unfoldable pub total : List ℕ → ℕ
total [] = 0
total (x ∷ xs) = x + total xs

tick_awaiting-awaiting :
    (a : Answers) (now : ℕ) (g : OtaGuard) → (tick_awaiting a now g).awaiting ≡ g.awaiting
unfolding tick_awaiting tick save call
tick_awaiting-awaiting a now g = ground arith

-- A delay that does not keep the confirm deadline waiting.
abbrev pub Paced : OtaGuard → ℕ → Type 0
Paced g step = (g.awaiting ≡ false) ⊎ (step ≤ 1000)

Paced-tick :
    (a : Answers) (now : ℕ) (g : OtaGuard) (steps : List ℕ)
    → All (Paced (tick_awaiting a now g)) steps
    → All (Paced g) steps
Paced-tick a now g [] h = tt
Paced-tick a now g (s ∷ ss) (h, hs) =
    (ground (arith, tick_awaiting-awaiting a now g), Paced-tick a now g ss hs)

sleep_step_bounds :
    (n : ℕ) (g : OtaGuard) (ms : ℕ)
    → ms ≤ suc n * 1000
    → (sleep_step g ms ≤ ms) × (ms - sleep_step g ms ≤ n * 1000) × Paced g (sleep_step g ms)
unfolding sleep_step
sleep_step_bounds n g ms h = ground arith

net_sleep_round :
    (n : ℕ) (a : Answers) (ms now : ℕ) (g : OtaGuard)
    → 0 < ms
    → let step = sleep_step g ms in
      let later = (now + step) % u32_mod in
      (net_sleep (suc n) a ms now g).0
      ≡ step ∷ (net_sleep n a (ms - step) later (tick_awaiting a later g)).0
unfolding net_sleep
net_sleep_round n a ms now g h = ground arith

-- With fuel for one round per second begun, the delays of netSleep sum up to the time asked
-- for, and while an image awaits its confirmation none is longer than a second.
pub net_sleep-total :
    (n : ℕ) (a : Answers) (ms now : ℕ) (g : OtaGuard)
    → ms ≤ n * 1000
    → (total (net_sleep n a ms now g).0 ≡ ms) × All (Paced g) (net_sleep n a ms now g).0
unfolding net_sleep total
net_sleep-total zero a ms now g h = (omega arith, tt)
net_sleep-total (suc n) a zero now g h = (refl, tt)
net_sleep-total (suc n) a (suc k) now g h =
    let (le, left, paced) = sleep_step_bounds n g (suc k) h in
    let later = (now + sleep_step g (suc k)) % u32_mod in
    let (rest, all) =
      net_sleep-total n a (suc k - sleep_step g (suc k)) later (tick_awaiting a later g) left in
    rw (net_sleep_round n a (suc k) now g (omega arith))
      (omega arith, (paced, Paced-tick a later g _ all))
