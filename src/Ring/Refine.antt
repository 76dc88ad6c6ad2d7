-- ===== src/Ring/Refine.antt =====
-- `RingBuffer` implements the log of Ring/Log: what each method does to the slots it holds.
use presence_platform.Prelude.{
  ℕ, zero, suc, ◌+◌, ◌-◌, ◌≤◌, ◌<◌, ◌≡◌, refl, sym, ap, ap₂, ◌∙◌, true, [], ◌∷◌, ◌++◌, arith,
  Bool-cases, inl, inr, if◌then◌else◌, le→leb, lt→leb-false, ==_ne, take, take-nil, drop, u64_mod,
  to_size, size_mod, add_u64,
}
use native.Mathlib.Decide.{dec_lt}
use presence_platform.Punch.{PunchRecord, seal}
use presence_platform.Punch.Layout.{Fits}
use presence_platform.Storage.{Storage, IsReliable}
use presence_platform.Ring.{
  good, Ring, full, depth, make_room, write_head, commit, append, peek_loop, peek, ack_loop,
  ack_through,
}
use presence_platform.Ring.Log.{goods, acked_prefix-le, evict, push, acked, acked_prefix}
use presence_platform.Ring.Inv.{IsValid, make_room-IsValid}
use presence_platform.Ring.Slots.{
  window, contents, length-window, window_ext, window_snoc, read_slot-write_head,
  read_slot-write_head_apart, read_slot-save,
}

module _ (S : Storage) where
  pub drop-window :
      (f : S.Flash) (slots k i : ℕ)
      → 0 < k
      → drop 1 (window S f slots k i) ≡ window S f slots (k - 1) (i + 1)
  drop-window f slots zero i h = absurd (omega arith)
  drop-window f slots (suc k) i h = ap (λ n. window S f slots n (i + 1)) (omega arith)

  make_room_full :
      (r : Ring S)
      → IsValid S r
      → r.slots ≤ r.head - r.tail
      → make_room S r ≡ record r { tail = r.tail + 1 }
  unfolding make_room full depth
  make_room_full r v h = ground arith

  make_room_spare : (r : Ring S) → IsValid S r → r.head - r.tail < r.slots → make_room S r ≡ r
  unfolding make_room full depth
  make_room_spare r v h = ground arith

  -- Making room drops the oldest slot of a full ring and nothing else.
  pub make_room-contents :
      (r : Ring S) → IsValid S r → contents S (make_room S r) ≡ evict r.slots (contents S r)
  unfolding evict
  make_room-contents r v = elim (dec_lt (r.head - r.tail) r.slots) [
    | yes p ↦ rw (make_room_spare r v p, length-window, lt→leb-false _ _ p)
    | no p ↦
        rw
          (
            make_room_full r v (omega arith),
            length-window,
            le→leb r.slots (r.head - r.tail) (omega arith),
          )
          (ap (λ n. window S r.flash r.slots n (r.tail + 1)) (omega arith)
            ∙ sym (drop-window r.flash r.slots (r.head - r.tail) r.tail (omega (arith, v))))
  ]

  module _ (R : IsReliable S) (r : Ring S) (rec : PunchRecord) (v : IsValid S r)
      (fits : Fits rec) where
    -- The write at the head of a ring with room keeps its contents.
    pub write_head-contents :
        r.head < r.tail + r.slots
        → contents S (record r { flash = (write_head S r rec).0 }) ≡ contents S r
    write_head-contents room =
        window_ext S r.flash (write_head S r rec).0 r.slots (r.head - r.tail) r.tail
          λ j lo hi. read_slot-write_head_apart S R r v rec j fits (omega (arith, v)) (omega arith)

    -- Committing a write that succeeded adds its record.
    commit-contents :
        r.head < r.tail + r.slots
        → r.head + 1 < u64_mod
        → (write_head S r rec).1 ≡ true
        → contents S (commit S (record r { flash = (write_head S r rec).0 })).1
          ≡ contents S r ++ good (seal rec) ∷ []
    unfolding commit
    commit-contents room small written =
        ap (λ n. window S (commit S r2).1.flash r.slots n r.tail) grown
        ∙ window_ext S r2.flash (commit S r2).1.flash r.slots (suc (r.head - r.tail)) r.tail
            (λ j lo hi. read_slot-save S R r2.flash _ _ r.slots j)
        ∙ window_snoc S r2.flash r.slots (r.head - r.tail) r.tail r.head (omega (arith, v))
        ∙ ap₂ (λ xs x. xs ++ x ∷ []) (write_head-contents room)
            (read_slot-write_head S R r v rec fits written)
      where
        r2 : Ring S
        r2 = record r { flash = (write_head S r rec).0 }

        grown : add_u64 r.head 1 - r.tail ≡ suc (r.head - r.tail)
        grown = omega (arith, v)

-- An append of a fitting record to a ring with the invariant, whose head is not the last 64-bit
-- value, drops the oldest slot if the ring is full, whether or not its write succeeds, and adds
-- the sealed record behind the rest exactly if the write succeeds.
pub append-contents :
    (S : Storage) (R : IsReliable S) (r : Ring S) (rec : PunchRecord)
    → IsValid S r
    → Fits rec
    → r.head + 1 < u64_mod
    → contents S (append S r rec).1 ≡ (
        if (write_head S (make_room S r) rec).1
        then push r.slots (seal rec) (contents S r)
        else evict r.slots (contents S r))
unfolding append push
append-contents S R r rec v fits small =
    let (v1, room, h1, s1) = make_room-IsValid S r v in
    let r1 = make_room S r in
    rw (==_ne r.slots 0 (omega (arith, v))) (elim (Bool-cases (write_head S r1 rec).1) [
      | inl ok ↦ rw ok (
          commit-contents S R r1 rec v1 fits (omega arith) (omega arith) ok
          ∙ ap (λ xs. xs ++ good (seal rec) ∷ []) (make_room-contents S r v))
      | inr failed ↦
          rw failed
            (write_head-contents S R r1 rec v1 fits (omega arith) ∙ make_room-contents S r v)
    ])

module _ (S : Storage) where
  -- A loop of `peek` from position `i` takes the first `room` good records of the window.
  peek_loop-window :
      (f : S.Flash) (slots rounds i room : ℕ)
      → peek_loop S f slots rounds i room ≡ take room (goods (window S f slots rounds i))
  unfolding peek_loop goods
  peek_loop-window f slots zero i room = sym (take-nil PunchRecord room)
  peek_loop-window f slots (suc rounds) i zero = refl
  peek_loop-window f slots (suc rounds) i (suc room) = ground (
    arith,
    peek_loop-window f slots rounds (i + 1) (suc room),
    peek_loop-window f slots rounds (i + 1) room,
  )

  ack_loop-window :
      (f : S.Flash) (slots seq rounds tail dropped : ℕ)
      → tail + rounds < u64_mod
      → dropped + rounds < size_mod
      → ack_loop S f slots seq rounds tail dropped ≡ (
        tail + acked_prefix seq (window S f slots rounds tail),
        dropped + acked_prefix seq (window S f slots rounds tail),
      )
  unfolding ack_loop acked_prefix acked
  ack_loop-window f slots seq zero tail dropped h k = ground arith
  ack_loop-window f slots seq (suc rounds) tail dropped h k =
      ground (arith, ack_loop-window f slots seq rounds (tail + 1) (to_size (dropped + 1)))

  -- `peek` returns, in order, the first `max` records of the ring whose checksum matches, and
  -- passes over the slots that are torn or cannot be read.
  pub peek-contents : (r : Ring S) (max : ℕ) → peek S r max ≡ take max (goods (contents S r))
  unfolding peek
  peek-contents r max = peek_loop-window r.flash r.slots (r.head - r.tail) r.tail max

  drop-window_many :
      (f : S.Flash) (slots n k i : ℕ)
      → n ≤ k
      → drop n (window S f slots k i) ≡ window S f slots (k - n) (i + n)
  drop-window_many f slots zero k i h = ap₂ (window S f slots) (omega arith) (omega arith)
  drop-window_many f slots (suc n) zero i h = absurd (omega arith)
  drop-window_many f slots (suc n) (suc k) i h =
      drop-window_many f slots n k (i + 1) (omega arith)
      ∙ ap₂ (window S f slots) (omega arith) (omega arith)

  acked-le : (r : Ring S) (seq : ℕ) → acked_prefix seq (contents S r) ≤ r.head - r.tail
  acked-le r seq = omega (
    arith,
    acked_prefix-le seq (contents S r),
    length-window S r.flash r.slots (r.head - r.tail) r.tail,
  )

  -- An acknowledgement of `seq` on a ring with the invariant drops the longest run of leading
  -- slots that are torn or hold a record up to `seq`, no more and no less, and returns their
  -- number.
  pub ack_through-contents :
      IsReliable S
      → (r : Ring S) (seq : ℕ) → IsValid S r
      → let n = acked_prefix seq (contents S r) in
        ((ack_through S r seq).0 ≡ n) × (contents S (ack_through S r seq).1 ≡ drop n (contents S r))
  unfolding ack_through
  ack_through-contents R r seq v =
      rw
        (ack_loop-window r.flash r.slots seq (r.head - r.tail) r.tail 0 (omega (arith, v))
          (omega (arith, v)))
        (
          omega arith,
          window_ext S r.flash (S.save_cursors r.flash r.head (r.tail + n)).0 r.slots
                (r.head - (r.tail + n)) (r.tail + n)
                (λ j lo hi. read_slot-save S R r.flash _ _ r.slots j)
              ∙ ap (λ k. window S r.flash r.slots k (r.tail + n)) (omega (arith, v))
              ∙ sym (drop-window_many r.flash r.slots n (r.head - r.tail) r.tail (acked-le r seq)),
        )
    where
      n : ℕ
      n = acked_prefix seq (contents S r)
