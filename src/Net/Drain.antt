-- ===== src/Net/Drain.antt =====
-- firmware/src/main.cpp: what `flushEvents` takes out of a buffer whose batches are acknowledged.
use presence_platform.Prelude.{
  ℕ, zero, suc, ◌+◌, ◌*◌, ◌^◌, ◌≤◌, ◌<◌, ◌≡◌, ◌≢◌, ◌⊎◌, inl, inr, refl, sym, subst, ap, ◌∙◌, true,
  List, [], ◌∷◌, map, length, take, drop, arith, All,
}
use presence_platform.Json.{parse_ack_through}
use presence_platform.Punch.{PunchRecord}
use presence_platform.Storage.{IsReliable}
use presence_platform.Ring.{Slot, unreadable, torn, good, Ring, peek, ack_through}
use presence_platform.Ring.Log.{goods, acked, acked_prefix}
use presence_platform.Ring.Inv.{IsValid, ack_through-IsValid}
use presence_platform.Ring.Slots.{contents}
use presence_platform.Ring.Refine.{peek-contents, ack_through-contents}
use presence_platform.Clock.{negative}
use presence_platform.Scan.Sequence.{Ascends, Ascends-weaken}
use presence_platform.Net.{World, Draw, Reply, Node}
use presence_platform.Net.Acked.{held, batch, reply_of, post_batch-ring, flush_events_cases}
use presence_platform.Net.Upload.{max_batch, accept_ack, take_reply, flush_events}

abbrev pub seqs : List PunchRecord → List ℕ
seqs rs = map (λ r. r.seq) rs

-- The last number of a batch, or `n` if it is empty.
unfoldable pub last_seq : ℕ → List PunchRecord → ℕ
last_seq n [] = n
last_seq n (r ∷ rs) = last_seq r.seq rs

-- No slot fails to be read.
abbrev pub Readable : Slot → Type 0
Readable unreadable = ⊥
Readable torn = Unit
Readable (good rec) = Unit

last_seq-le : (k m : ℕ) (rs : List PunchRecord) → Ascends m (seqs rs) → m ≤ last_seq m (take k rs)
unfolding last_seq
last_seq-le zero m rs h = omega arith
last_seq-le (suc k) m [] h = omega arith
last_seq-le (suc k) m (r ∷ rs) (lt, h) = let rest = last_seq-le k r.seq rs h in omega arith

-- An acknowledgement of the k-th good record drops the first k of them.
goods-acked :
    (xs : List Slot) (k m : ℕ)
    → All Readable xs
    → Ascends m (seqs (goods xs))
    → goods (drop (acked_prefix (last_seq m (take k (goods xs))) xs) xs) ≡ drop k (goods xs)
unfolding goods acked_prefix acked last_seq
goods-acked [] zero m r h = refl
goods-acked [] (suc k) m r h = refl
goods-acked (unreadable ∷ xs) k m (r, rs) h = absurd r
goods-acked (torn ∷ xs) k m (r, rs) h = goods-acked xs k m rs h
goods-acked (good rec ∷ xs) zero m (r, rs) (lt, h) = ground arith
goods-acked (good rec ∷ xs) (suc k) m (r, rs) (lt, h) =
    let le = last_seq-le k rec.seq (goods xs) h in
    let rest = goods-acked xs k rec.seq rs h in ground arith

Ascends-drop :
    (k m : ℕ) (rs : List PunchRecord) → Ascends m (seqs rs) → Ascends m (seqs (drop k rs))
Ascends-drop zero m rs h = h
Ascends-drop (suc k) m [] h = tt
Ascends-drop (suc k) m (r ∷ rs) (lt, h) =
    Ascends-weaken m r.seq (seqs (drop k rs)) (omega arith) (Ascends-drop k r.seq rs h)

Readable-drop : (k : ℕ) (xs : List Slot) → All Readable xs → All Readable (drop k xs)
Readable-drop zero xs h = h
Readable-drop (suc k) [] h = tt
Readable-drop (suc k) (x ∷ xs) (h, hs) = Readable-drop k xs hs

drop-nil : (k : ℕ) → drop {A = PunchRecord} k [] ≡ []
drop-nil zero = refl
drop-nil (suc k) = refl

drop-drop : (j k : ℕ) (rs : List PunchRecord) → drop j (drop k rs) ≡ drop (k + j) rs
drop-drop j zero rs = ap (λ n. drop n rs) (omega arith)
drop-drop j (suc k) [] = drop-nil j ∙ sym (drop-nil (suc k + j))
drop-drop j (suc k) (r ∷ rs) =
    drop-drop j k rs ∙ ap (λ n. drop n (r ∷ rs)) {x = suc (k + j)} (omega arith)

module _ (W : World) where
  -- The gateway answers a flush by acknowledging the last record of its batch, if it has any.
  abbrev pub AcksBatch : Draw → Node W → Type 0
  AcksBatch d n =
      (batch W n ≡ [])
      ⊎ (((reply_of W d n).code ≡ 200)
          × (parse_ack_through (reply_of W d n).response ≡ last_seq 0 (batch W n))
          × (0 < last_seq 0 (batch W n))
          × (last_seq 0 (batch W n) < 2 ^ 63))

  unfoldable pub flush_all : List Draw → Node W → Node W
  flush_all [] n = n
  flush_all (d ∷ ds) n = flush_all ds (flush_events W d n).1

  abbrev pub AcksAll : List Draw → Node W → Type 0
  AcksAll [] n = Unit
  AcksAll (d ∷ ds) n = AcksBatch d n × AcksAll ds (flush_events W d n).1

  take_reply_acked :
      (d : Draw) (reply : Reply) (n : Node W) (ack : ℕ)
      → reply.code ≡ 200
      → parse_ack_through reply.response ≡ ack
      → 0 < ack
      → ack < 2 ^ 63
      → (take_reply W d reply n).1.ring ≡ (ack_through W.storage n.ring ack).1
  unfolding take_reply accept_ack negative
  take_reply_acked d reply n ack ok e pos bound = ground arith

  -- A buffer whose records are readable and numbered in order.
  pub record IsOrdered (r : Ring W.storage) : Type 0 where
    pub valid : IsValid W.storage r
    pub readable : All Readable (contents W.storage r)
    pub ascending : Ascends 0 (seqs (goods (contents W.storage r)))

  -- An acknowledgement of a batch takes the batch out of the buffer.
  ack_batch :
      IsReliable W.storage
      → (r : Ring W.storage) → IsOrdered r
      → let after = (ack_through W.storage r (last_seq 0 (peek W.storage r max_batch))).1 in
        IsOrdered after
        × (goods (contents W.storage after) ≡ drop max_batch (goods (contents W.storage r)))
  ack_batch R r o =
      let xs = contents W.storage r in
      let ack = last_seq 0 (peek W.storage r max_batch) in
      let left : contents W.storage (ack_through W.storage r ack).1
          ≡ drop (acked_prefix ack xs) xs =
        (ack_through-contents W.storage R r ack o.valid).1 in
      let gone : goods (contents W.storage (ack_through W.storage r ack).1)
          ≡ drop max_batch (goods xs) =
        ap goods left
        ∙ ap (λ b. goods (drop (acked_prefix (last_seq 0 b) xs) xs))
            (peek-contents W.storage r max_batch)
        ∙ goods-acked xs max_batch 0 o.readable o.ascending in
      (
        record {
          valid = ack_through-IsValid W.storage r ack o.valid;
          readable =
              subst (All Readable) (sym left) (Readable-drop (acked_prefix ack xs) xs o.readable);
          ascending =
              subst (λ g. Ascends 0 (seqs g)) (sym gone)
                (Ascends-drop max_batch 0 (goods xs) o.ascending);
        },
        gone,
      )

  none_taken : (k : ℕ) (rs : List PunchRecord) → take (suc k) rs ≡ [] → drop (suc k) rs ≡ rs
  none_taken k [] h = refl
  none_taken k (r ∷ rs) h = absurd (ground arith)

  flush_nothing : (d : Draw) (n : Node W) → batch W n ≡ [] → flush_events W d n ≡ (true, n)
  unfolding flush_events
  flush_nothing d n h = ground arith

  flushed_ring :
      (d : Draw) (n : Node W)
      → batch W n ≢ []
      → (reply_of W d n).code ≡ 200
      → parse_ack_through (reply_of W d n).response ≡ last_seq 0 (batch W n)
      → 0 < last_seq 0 (batch W n)
      → last_seq 0 (batch W n) < 2 ^ 63
      → (flush_events W d n).1.ring ≡ (ack_through W.storage n.ring (last_seq 0 (batch W n))).1
  flushed_ring d n some_left ok ack pos bound = elim (flush_events_cases W d n) [
    | inl (none_left, e) ↦ absurd (some_left none_left)
    | inr e ↦
        ap (λ x. x.1.ring) e
        ∙ take_reply_acked d (reply_of W d n) _ _ ok ack pos bound
        ∙ ap (λ r. (ack_through W.storage r (last_seq 0 (batch W n))).1)
            (post_batch-ring W (batch W n) d n)
  ]

  flush-goods :
      IsReliable W.storage
      → (d : Draw) (n : Node W) → IsOrdered n.ring
      → AcksBatch d n
      → IsOrdered (flush_events W d n).1.ring
        × (goods (held W (flush_events W d n).1) ≡ drop max_batch (goods (held W n)))
  unfolding last_seq
  flush-goods R d n o (inl none_left) =
      let e = sym (flush_nothing d n none_left) in
      (
        subst (λ x. IsOrdered x.1.ring) e o,
        subst (λ x. goods (held W x.1) ≡ drop max_batch (goods (held W n))) e
            (sym (
              none_taken 49 (goods (held W n))
                (sym (peek-contents W.storage n.ring max_batch) ∙ none_left))),
      )
  flush-goods R d n o (inr (ok, ack, pos, bound)) =
      let some_left : batch W n ≢ [] =
        λ h. absurd (omega (arith, subst (λ b. 0 < last_seq 0 b) h pos)) in
      let e = sym (flushed_ring d n some_left ok ack pos bound) in
      let (ordered, gone) = ack_batch R n.ring o in
      (
        subst IsOrdered e ordered,
        subst (λ r. goods (contents W.storage r) ≡ drop max_batch (goods (held W n))) e gone,
      )

  -- Over a storage that keeps what it promises and a ring with the invariant whose slots are
  -- readable and whose records have ascending numbers from 1: if each of k flushes either finds
  -- no record or is answered by 200 with the number of the last record of its batch, below
  -- 2^63, then the ring still is such a ring, and its records are those from before less the
  -- first 50 k.
  pub flush_all-goods :
      IsReliable W.storage
      → (ds : List Draw) (n : Node W) → IsOrdered n.ring
      → AcksAll ds n
      → IsOrdered (flush_all ds n).ring
        × (goods (held W (flush_all ds n)) ≡ drop (length ds * max_batch) (goods (held W n)))
  unfolding flush_all
  flush_all-goods R [] n o a = (o, refl)
  flush_all-goods R (d ∷ ds) n o (a, as') =
      let (o1, gone) = flush-goods R d n o a in
      let (o2, rest) = flush_all-goods R ds (flush_events W d n).1 o1 as' in
      (
        o2,
        rest
            ∙ ap (drop (length ds * max_batch)) gone
            ∙ drop-drop (length ds * max_batch) max_batch (goods (held W n))
            ∙ ap (λ k. drop k (goods (held W n))) (omega arith),
      )
