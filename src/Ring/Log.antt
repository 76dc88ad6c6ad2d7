-- ===== src/Ring/Log.antt =====
-- The abstract view of `RingBuffer`: a log of slots, oldest first, that drops its oldest slot where
-- it is full. A slot that cannot be read or fails its checksum keeps its place.
use presence_platform.Prelude.{
  ℕ, suc, ◌≤◌, arith, Bool, true, false, not, List, [], ◌∷◌, ◌++◌, leb, ltb, if◌then◌else◌, length,
  drop,
}
use presence_platform.Punch.{PunchRecord}
use presence_platform.Ring.{Slot, unreadable, torn, good}

-- The records that can be uploaded.
unfoldable pub goods : List Slot → List PunchRecord
goods [] = []
goods (good rec ∷ xs) = rec ∷ goods xs
goods (unreadable ∷ xs) = goods xs
goods (torn ∷ xs) = goods xs

-- The room that a log of at most `slots` slots makes for one more.
unfoldable pub evict : ℕ → List Slot → List Slot
evict slots xs = if leb slots (length xs) then drop 1 xs else xs

unfoldable pub push : ℕ → PunchRecord → List Slot → List Slot
unfolding evict
push slots rec xs = evict slots xs ++ good rec ∷ []

-- What an acknowledgement of `seq` may drop: nothing that is unread, and no later record.
unfoldable pub acked : ℕ → Slot → Bool
acked seq unreadable = false
acked seq torn = true
acked seq (good rec) = not (ltb seq rec.seq)

-- The number of leading slots that an acknowledgement drops.
unfoldable pub acked_prefix : ℕ → List Slot → ℕ
acked_prefix seq [] = 0
acked_prefix seq (x ∷ xs) = if acked seq x then suc (acked_prefix seq xs) else 0

pub acked_prefix-le : (seq : ℕ) (xs : List Slot) → acked_prefix seq xs ≤ length xs
unfolding acked_prefix
acked_prefix-le seq [] = omega arith
acked_prefix-le seq (x ∷ xs) = ground (arith, acked_prefix-le seq xs)
