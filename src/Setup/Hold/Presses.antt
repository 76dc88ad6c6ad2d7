-- ===== src/Setup/Hold/Presses.antt =====
-- What `HoldTrigger` answers while the button stays down.
use presence_platform.Prelude.{
  ℕ, ◌≡◌, refl, ap, Bool, true, false, List, [], ◌∷◌, map, leb, if◌then◌else◌, sub_u32, arith,
}
use presence_platform.Setup.Hold.{HoldTrigger, new_trigger, update}

-- The answers to polls at the given times, with the button down.
unfoldable pub presses : List ℕ → HoldTrigger → List Bool
presses [] h = []
presses (t ∷ ts) h = let (fired, h1) = update true t h in fired ∷ presses ts h1

-- `true` at the first time that is `hold_ms` or more after `since`, and nowhere else.
unfoldable pub first_late : ℕ → ℕ → List ℕ → List Bool
first_late hold_ms since [] = []
first_late hold_ms since (t ∷ ts) =
    let rest = first_late hold_ms since ts in
    if leb hold_ms (sub_u32 t since) then true ∷ map (λ u. false) ts else false ∷ rest

unarmed :
    (ts : List ℕ) (h : HoldTrigger) → presses ts (record h { armed = false }) ≡ map (λ t. false) ts
unfolding presses update
unarmed [] h = refl
unarmed (t ∷ ts) h = ap (◌∷◌ false) (unarmed ts h)

-- A button that has been down since power-on never fires, however long it is held.
pub boot_press_ignored :
    (hold_ms : ℕ) (ts : List ℕ) → presses ts (new_trigger hold_ms) ≡ map (λ t. false) ts
boot_press_ignored hold_ms ts = unarmed ts (new_trigger hold_ms)

-- The answers of a trigger that holds since `since` and has fired, or not yet.
spent :
    (hold_ms since : ℕ) (ts : List ℕ)
    → presses ts
        (record { hold_ms = hold_ms; since_ms = since; armed = true; holding = true; fired = true })
      ≡ map (λ t. false) ts
unfolding presses update
spent hold_ms since [] = refl
spent hold_ms since (t ∷ ts) = ap (◌∷◌ false) (spent hold_ms since ts)

held :
    (hold_ms since : ℕ) (ts : List ℕ)
    → presses ts (record {
      hold_ms = hold_ms;
      since_ms = since;
      armed = true;
      holding = true;
      fired = false;
    })
      ≡ first_late hold_ms since ts
unfolding presses update first_late
held hold_ms since [] = refl
held hold_ms since (t ∷ ts) = ground (arith, held hold_ms since ts, spent hold_ms since ts)

-- After a release, polls of a button that stays down answer true at the first poll that is the
-- hold time or more after the first, on the 32-bit clock, and at no other.
pub fires_once :
    (h : HoldTrigger) (released t : ℕ) (ts : List ℕ)
    → presses (t ∷ ts) (update false released h).1 ≡ first_late h.hold_ms t (t ∷ ts)
unfolding presses update first_late
fires_once h released t ts = ground (arith, held h.hold_ms t ts, spent h.hold_ms t ts)
