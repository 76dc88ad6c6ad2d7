-- ===== src/Scan/Sequence.antt =====
-- firmware/src/main.cpp: `nextSeq`, and what `setup` restores. `seq` is `g_seq`, `saved` the entry of
-- NVS. A run is a sequence of uses, of power cuts between the commit and the use, and of reboots.
use presence_platform.Prelude.{
  ℕ, ◌+◌, ◌≤◌, ◌<◌, ◌≡◌, refl, Bool, true, false, subst, Option, none, some, List, [], ◌∷◌, length,
  if◌then◌else◌, add_u64, u64_mod, arith, All,
}

pub record Counter : Type 0 where
  pub seq : ℕ
  pub saved : Option ℕ

-- `written` is whether `putULong64` succeeds; nobody reads its answer.
unfoldable pub next_seq : Bool → Counter → ℕ × Counter
next_seq written c =
    let seq = add_u64 c.seq 1 in
    (seq, record { seq = seq; saved = if written then some seq else c.saved })

-- `g_nvs.getULong64("seq", 0)`
unfoldable pub saved_or_zero : Option ℕ → ℕ
saved_or_zero none = 0
saved_or_zero (some seq) = seq

unfoldable pub restore_seq : Counter → Counter
unfolding saved_or_zero
restore_seq c = record c { seq = saved_or_zero c.saved }

pub data SeqEvent : Type 0 where
  -- a number is committed and used
  take_number : Bool → SeqEvent
  -- a number is committed, and the power fails before it is used
  lose_number : Bool → SeqEvent
  reboot : SeqEvent

-- The numbers that a run uses, in order.
unfoldable pub used_numbers : List SeqEvent → Counter → List ℕ
unfolding next_seq restore_seq
used_numbers [] c = []
used_numbers (take_number w ∷ es) c = let (seq, after) = next_seq w c in seq ∷ used_numbers es after
used_numbers (lose_number w ∷ es) c = used_numbers es (restore_seq (next_seq w c).1)
used_numbers (reboot ∷ es) c = used_numbers es (restore_seq c)

-- NVS takes every write of the run.
abbrev pub Written : SeqEvent → Type 0
Written (take_number w) = w ≡ true
Written (lose_number w) = w ≡ true
Written reboot = Unit

-- Strictly ascending, from above `n`.
abbrev pub Ascends : ℕ → List ℕ → Type 0
Ascends n [] = Unit
Ascends n (x ∷ xs) = (n < x) × Ascends x xs

pub Ascends-weaken : (m n : ℕ) (xs : List ℕ) → m ≤ n → Ascends n xs → Ascends m xs
Ascends-weaken m n [] h a = tt
Ascends-weaken m n (x ∷ xs) h (lt, rest) = (omega arith, rest)

-- If NVS holds the counter and takes every write, then over any sequence of numbers used,
-- numbers lost to a power cut behind the commit, and reboots, which does not reach 2^64, the
-- numbers used ascend strictly from above the counter.
pub used_numbers-Ascends :
    (es : List SeqEvent) (c : Counter)
    → All Written es
    → saved_or_zero c.saved ≡ c.seq
    → c.seq + length es < u64_mod
    → Ascends c.seq (used_numbers es c)
unfolding used_numbers next_seq restore_seq saved_or_zero
used_numbers-Ascends [] c w h small = tt
used_numbers-Ascends (take_number true ∷ es) c (w, ws) h small =
    let after : Counter = record { seq = add_u64 c.seq 1; saved = some (add_u64 c.seq 1) } in
    (omega arith, used_numbers-Ascends es after ws refl (omega arith))
used_numbers-Ascends (take_number false ∷ es) c (w, ws) h small = absurd (ground arith)
used_numbers-Ascends (lose_number false ∷ es) c (w, ws) h small = absurd (ground arith)
used_numbers-Ascends (lose_number true ∷ es) c (w, ws) h small =
    let after : Counter = record { seq = add_u64 c.seq 1; saved = some (add_u64 c.seq 1) } in
    Ascends-weaken c.seq after.seq (used_numbers es after) (omega arith)
      (used_numbers-Ascends es after ws refl (omega arith))
used_numbers-Ascends (reboot ∷ es) c (w, ws) h small =
    let after : Counter = record { seq = saved_or_zero c.saved; saved = c.saved } in
    subst (λ n. Ascends n (used_numbers es after)) h
      (used_numbers-Ascends es after ws refl (omega arith))
