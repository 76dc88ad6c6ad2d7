-- ===== src/Ota/Guard/Floor.antt =====
-- The version floor over every sequence of calls, restarts included.
use presence_platform.Prelude.{
  ℕ, ◌≤◌, ◌≡◌, refl, Bool, Option, none, some, List, [], ◌∷◌, Bytes, arith, Bool-cases, ◌⊎◌, sym,
  subst, inl, inr,
}
use presence_platform.Ota.Guard.{
  OtaGuard, OtaPersistedState, Answers, ota_state_magic, loaded_or_fresh, begin, note_pending,
  clear_pending, on_healthy, mark_valid, BootCall, tick, on_confirm_deadline, settle, confirmed,
  call,
}

-- A call of the guard, with what the store and the bootloader answer.
pub data Call : Type 0 where
  boots : Answers → Bytes → Bool → ℕ → Call
  notes : Answers → Bytes → Bytes → Call
  clears : Answers → Call
  hears_gateway : Answers → Call
  ticks : Answers → ℕ → Call
  deadline_fires : Call

unfoldable pub perform : Call → OtaGuard → OtaGuard
perform (boots a version pending now_ms) g = begin a version pending now_ms g
perform (notes a version sha) g = (note_pending a version sha g).1
perform (clears a) g = clear_pending a g
perform (hears_gateway a) g = on_healthy a g
perform (ticks a now_ms) g = tick a now_ms g
perform deadline_fires g = on_confirm_deadline g

unfoldable pub run : List Call → OtaGuard → OtaGuard
run [] g = g
run (c ∷ cs) g = run cs (perform c g)

-- The floor that the next boot will load.
abbrev pub stored_floor : OtaGuard → ℕ
stored_floor g = (loaded_or_fresh g.nvs).floor

-- What is in memory is ahead of what is stored.
pub record IsSynced (g : OtaGuard) : Type 0 where
  pub marked : g.st.magic ≡ ota_state_magic
  pub ahead : stored_floor g ≤ g.st.floor

-- A call keeps the invariant, and the stored floor does not fall.
pub record Grows (g h : OtaGuard) : Type 0 where
  pub synced : IsSynced h
  pub rises : stored_floor g ≤ stored_floor h

loaded_marked : (o : Option OtaPersistedState) → (loaded_or_fresh o).magic ≡ ota_state_magic
unfolding loaded_or_fresh
loaded_marked none = refl
loaded_marked (some s) = ground arith

-- A boot needs no invariant: what is in memory is what was stored.
begin-Grows :
    (a : Answers) (version : Bytes) (pending : Bool) (now_ms : ℕ) (g : OtaGuard)
    → Grows g (begin a version pending now_ms g)
unfolding begin
begin-Grows a version pending now_ms g = ground (arith, loaded_marked g.nvs)

confirmed_kept : (g : OtaGuard) → ((confirmed g).nvs ≡ g.nvs) × ((confirmed g).st ≡ g.st)
unfolding confirmed call
confirmed_kept g = ground arith

settle-Grows : (a : Answers) (g : OtaGuard) → IsSynced g → Grows g (settle a g)
unfolding settle loaded_or_fresh
settle-Grows a g v = ground arith

-- A call on a guard with the same entry and state shows the same of `g`.
rebase :
    (g g1 : OtaGuard)
    → g1.nvs ≡ g.nvs
    → g1.st ≡ g.st
    → ({h : OtaGuard} → (IsSynced g1 → Grows g1 h) → IsSynced g → Grows g h)
rebase g g1 e d {h} k v =
    let z = k (record { marked = cc (v.marked, d); ahead = rw (d, e) v.ahead }) in
    record {
      synced = z.synced;
      rises = subst (λ n. (loaded_or_fresh n).floor ≤ stored_floor h) e z.rises;
    }

on_healthy_outcome :
    (a : Answers) (g : OtaGuard)
    → (on_healthy a g ≡ g)
      ⊎ ((on_healthy a g ≡ settle a g)
          ⊎ ((on_healthy a g ≡ call mark_valid g)
              ⊎ (on_healthy a g ≡ settle a (confirmed (call mark_valid g)))))
unfolding on_healthy
on_healthy_outcome a g = elim (Bool-cases g.healthy) [
  | inl h ↦ inl (simp h)
  | inr h ↦ elim (Bool-cases g.awaiting) [
    | inr w ↦ inr (inl (simp (h, w)))
    | inl w ↦ elim (Bool-cases a.mark_ok) [
      | inl m ↦ inr (inr (inr (simp (h, w, m))))
      | inr m ↦ inr (inr (inl (simp (h, w, m))))
    ]
  ]
]

unmoved : (g : OtaGuard) → IsSynced g → Grows g g
unmoved g v = record { synced = v; rises = omega arith }

called_kept : (c : BootCall) (g : OtaGuard) → ((call c g).nvs ≡ g.nvs) × ((call c g).st ≡ g.st)
unfolding call
called_kept c g = (refl, refl)

on_healthy-Grows : (a : Answers) (g : OtaGuard) → IsSynced g → Grows g (on_healthy a g)
on_healthy-Grows a g v =
    let called = call mark_valid g in
    let (nvs_kept, st_kept) = called_kept mark_valid g in
    elim (on_healthy_outcome a g) [
      | inl e ↦ subst (Grows g) (sym e) (unmoved g v)
      | inr (inl e) ↦ subst (Grows g) (sym e) (settle-Grows a g v)
      | inr (inr (inl e)) ↦
          subst (Grows g) (sym e) (rebase g called nvs_kept st_kept (unmoved called) v)
      | inr (inr (inr e)) ↦ subst (Grows g) (sym e) (
          rebase g called nvs_kept st_kept
            (rebase called (confirmed called) (confirmed_kept called).0 (confirmed_kept called).1
              (settle-Grows a (confirmed called)))
            v)
    ]

note_pending-Grows :
    (a : Answers) (version sha : Bytes) (g : OtaGuard)
    → IsSynced g
    → Grows g (note_pending a version sha g).1
unfolding note_pending loaded_or_fresh
note_pending-Grows a version sha g v = ground arith

clear_pending-Grows : (a : Answers) (g : OtaGuard) → IsSynced g → Grows g (clear_pending a g)
unfolding clear_pending loaded_or_fresh
clear_pending-Grows a g v = ground arith

tick-Grows : (a : Answers) (now_ms : ℕ) (g : OtaGuard) → IsSynced g → Grows g (tick a now_ms g)
unfolding tick loaded_or_fresh
tick-Grows a now_ms g v = ground arith

deadline-Grows : (g : OtaGuard) → IsSynced g → Grows g (on_confirm_deadline g)
unfolding on_confirm_deadline loaded_or_fresh
deadline-Grows g v = ground arith

perform-Grows : (c : Call) (g : OtaGuard) → IsSynced g → Grows g (perform c g)
unfolding perform
perform-Grows (boots a version pending now_ms) g v = begin-Grows a version pending now_ms g
perform-Grows (notes a version sha) g v = note_pending-Grows a version sha g v
perform-Grows (clears a) g v = clear_pending-Grows a g v
perform-Grows (hears_gateway a) g v = on_healthy-Grows a g v
perform-Grows (ticks a now_ms) g v = tick-Grows a now_ms g v
perform-Grows deadline_fires g v = deadline-Grows g v

run-Grows : (cs : List Call) (g : OtaGuard) → IsSynced g → Grows g (run cs g)
unfolding run
run-Grows [] g v = record { synced = v; rises = omega arith }
run-Grows (c ∷ cs) g v =
    let first = perform-Grows c g v in
    let rest = run-Grows cs (perform c g) first.synced in
    record { synced = rest.synced; rises = omega arith }

-- From any boot on, whatever the guard is asked and whatever the store and the bootloader
-- answer, restarts included, the stored floor never falls and the floor in memory is at least
-- the stored one.
pub floor_only_rises :
    (a : Answers) (version : Bytes) (pending : Bool) (now_ms : ℕ) (cs : List Call) (g : OtaGuard)
    → let h = run cs (begin a version pending now_ms g) in
      (stored_floor g ≤ stored_floor h) × (stored_floor h ≤ h.st.floor)
floor_only_rises a version pending now_ms cs g =
    let booted = begin-Grows a version pending now_ms g in
    let later = run-Grows cs (begin a version pending now_ms g) booted.synced in
    (omega arith, later.synced.ahead)
