-- ===== src/Storage/Memory.antt =====
-- The storage over memory, as firmware/test/host_test.cpp has it: it shows that what the ring
-- relies on can be met.
use presence_platform.Prelude.{
  ℕ, zero, suc, ◌+◌, ◌≤◌, ◌<◌, ◌≡◌, ◌⊎◌, refl, ap, ap₂, ◌∙◌, Bool, true, false, Option, some, none,
  [], ◌∷◌, ◌++◌, Bytes, length, ◌==◌, ==_refl, leb, le→leb, if◌then◌else◌, arith,
}
use presence_platform.Storage.{Storage, IsReliable}

pub record Memory : Type 0 where
  pub byte_at : ℕ → ℕ
  pub cursors : ℕ × ℕ

-- `n` bytes from address `o` on.
unfoldable pub slice : (ℕ → ℕ) → ℕ → ℕ → Bytes
slice g o zero = []
slice g o (suc n) = g o ∷ slice g (o + 1) n

unfoldable pub overlay : (ℕ → ℕ) → ℕ → Bytes → ℕ → ℕ
overlay g o [] a = g a
overlay g o (x ∷ xs) a = if a == o then x else overlay g (o + 1) xs a

module _ (capacity : ℕ) where
  unfoldable pub read : Memory → ℕ → ℕ → Option Bytes
  unfolding slice
  read m o n = if leb (o + n) capacity then some (slice m.byte_at o n) else none

  unfoldable pub write : Memory → ℕ → Bytes → Memory × Bool
  unfolding overlay
  write m o b =
      if leb (o + length b) capacity
      then (record m { byte_at = overlay m.byte_at o b }, true)
      else (m, false)

  abbrev pub memory_storage : Storage
  memory_storage = record {
    Flash = Memory;
    capacity_bytes = capacity;
    read_at = read;
    write_at = write;
    save_cursors = λ m h t. (record m { cursors = (h, t) }, true);
    load_cursors = λ m. some m.cursors;
  }

pub slice_ext :
    (g h : ℕ → ℕ) (o n : ℕ) → ((a : ℕ) → o ≤ a → a < o + n → g a ≡ h a) → slice g o n ≡ slice h o n
unfolding slice
slice_ext g h o zero e = refl
slice_ext g h o (suc n) e =
    ap₂ ◌∷◌ (e o (omega arith) (omega arith))
      (slice_ext g h (o + 1) n (λ a lo hi. e a (omega arith) (omega arith)))

overlay_after :
    (g : ℕ → ℕ) (o x : ℕ) (xs : Bytes) (a : ℕ)
    → o < a
    → overlay g o (x ∷ xs) a ≡ overlay g (o + 1) xs a
unfolding overlay
overlay_after g o x xs a h = ground arith

pub overlay_apart :
    (g : ℕ → ℕ) (o : ℕ) (b : Bytes) (a : ℕ) → (o + length b ≤ a) ⊎ (a < o) → overlay g o b a ≡ g a
unfolding overlay
overlay_apart g o [] a h = refl
overlay_apart g o (x ∷ xs) a h = ground (arith, overlay_apart g (o + 1) xs a)

pub slice-overlay : (g : ℕ → ℕ) (o : ℕ) (b : Bytes) → slice (overlay g o b) o (length b) ≡ b
unfolding slice overlay
slice-overlay g o [] = refl
slice-overlay g o (x ∷ xs) = ap₂ ◌∷◌ (rw ==_refl) (
    slice_ext (overlay g o (x ∷ xs)) (overlay g (o + 1) xs) (o + 1) (length xs)
      (λ a lo hi. overlay_after g o x xs a (omega arith))
    ∙ slice-overlay g (o + 1) xs)

-- Adjacent slices join, and a slice has the length asked for.
pub slice-append : (g : ℕ → ℕ) (o m n : ℕ) → slice g o (m + n) ≡ slice g o m ++ slice g (o + m) n
unfolding slice
slice-append g o zero n = ap₂ (slice g) (omega arith) (omega arith)
slice-append g o (suc m) n =
    ap (slice g o) {x = suc m + n} {y = suc (m + n)} (omega arith)
    ∙ ap (◌∷◌ (g o))
        (slice-append g (o + 1) m n ∙ ap (λ p. slice g (o + 1) m ++ slice g p n) (omega arith))

pub length-slice : (g : ℕ → ℕ) (o n : ℕ) → length (slice g o n) ≡ n
unfolding slice
length-slice g o zero = refl
length-slice g o (suc n) = ap suc (length-slice g (o + 1) n)

memory_read-write :
    (cap : ℕ) (m : Memory) (o : ℕ) (b : Bytes)
    → o + length b ≤ cap
    → read cap (write cap m o b).0 o (length b) ≡ some b
unfolding read write
memory_read-write cap m o b h = rw (le→leb _ _ h, slice-overlay m.byte_at o b)

memory_read-write_apart :
    (cap : ℕ) (m : Memory) (o : ℕ) (b : Bytes) (p n : ℕ)
    → (o + length b ≤ p) ⊎ (p + n ≤ o)
    → read cap (write cap m o b).0 p n ≡ read cap m p n
unfolding read write
memory_read-write_apart cap m o b p n h = ground (
  arith,
  slice_ext (overlay m.byte_at o b) m.byte_at p n
      (λ a lo hi. overlay_apart m.byte_at o b a (grind arith)),
)

memory_cursors-write :
    (cap : ℕ) (m : Memory) (o : ℕ) (b : Bytes) → (write cap m o b).0.cursors ≡ m.cursors
unfolding write
memory_cursors-write cap m o b = ground arith

pub memory-IsReliable : (cap : ℕ) → IsReliable (memory_storage cap)
unfolding read
memory-IsReliable cap = record {
  read-write = λ m o b fits written. memory_read-write cap m o b fits;
  read-write_apart = memory_read-write_apart cap;
  load-write = λ m o b. rw (memory_cursors-write cap m o b);
  read-save = λ m h t o n. refl;
  load-save = λ m h t hh ht saved. refl;
}
