-- ===== src/Scan/Confirmed.antt =====
-- firmware/src/main.cpp: what the verdicts of the scan task promise.
use presence_platform.Prelude.{
  ℕ, ◌+◌, ◌<◌, ◌≡◌, ◌≢◌, ◌⊎◌, inl, inr, refl, sym, subst, ap, ◌∙◌, true, false, List, [], ◌∷◌, ◌++◌,
  length, length-append, if◌then◌else◌, arith, u64_mod, add_u64,
}
use presence_platform.Storage.{Storage, IsReliable}
use presence_platform.Punch.{PunchRecord, seal}
use presence_platform.Punch.Layout.{Fits}
use presence_platform.Ring.{begin, append}
use presence_platform.Ring.Log.{push}
use presence_platform.Ring.Inv.{IsValid}
use presence_platform.Ring.Slots.{contents}
use presence_platform.Ring.Recover.{confirmed_survives}
use presence_platform.Terminal.{
  fault, running, note_sensor_replied, note_buffer_write_failed, state, state_in,
}
use presence_platform.Clock.{Rtc}
use presence_platform.Scan.Sequence.{next_seq}
use presence_platform.Scan.{
  Reading, Scanner, send_verdict, punch_of, store_punch, match_finger, take_image, probe_sensor,
  scan_round,
}

snoc_injective : (xs : List ℕ) (a b : ℕ) → xs ++ a ∷ [] ≡ xs ++ b ∷ [] → a ≡ b
snoc_injective [] a b h = ground arith
snoc_injective (x ∷ xs) a b h = snoc_injective xs a b (ground arith)

snoc_longer : (xs : List ℕ) (a : ℕ) → xs ≢ xs ++ a ∷ []
snoc_longer xs a h = absurd (omega (arith, length-append xs (a ∷ []), ap length h))

module _ (S : Storage) (R : Rtc) where
  -- A round that stores nothing.
  record IsQuiet (s s' : Scanner S R) : Type 0 where
    ring_same : s'.ring ≡ s.ring
    counter_same : s'.counter ≡ s.counter
    verdict : (s'.feedback ≡ s.feedback) ⊎ (s'.feedback ≡ s.feedback ++ 0 ∷ [])

  -- The state from which a round stores its punch.
  abbrev matching : Reading → Scanner S R → Scanner S R
  matching r s = record s {
    status = note_sensor_replied s.status;
    last_slot = r.finger_id;
    last_slot_at_ms = r.now_ms;
  }

  send_verdict-IsQuiet : (s : Scanner S R) → IsQuiet s (send_verdict S R 0 s)
  unfolding send_verdict
  send_verdict-IsQuiet s = ground arith

  match_finger_cases :
      (r : Reading) (s : Scanner S R)
      → (match_finger S R r s ≡ s)
        ⊎ (match_finger S R r s ≡ send_verdict S R 0 s)
        ⊎ (match_finger S R r s
            ≡ store_punch S R r (record s { last_slot = r.finger_id; last_slot_at_ms = r.now_ms }))
  unfolding match_finger
  match_finger_cases r s = ground arith

  abbrev replied : Scanner S R → Scanner S R
  replied s = record s { status = note_sensor_replied s.status }

  match-IsQuiet :
      (r : Reading) (s : Scanner S R)
      → IsQuiet s (match_finger S R r (replied s))
        ⊎ (match_finger S R r (replied s) ≡ store_punch S R r (matching r s))
  match-IsQuiet r s = elim (match_finger_cases r (replied s)) [
    | inl e ↦ inl (
        subst (IsQuiet s) (sym e)
          (record { ring_same = refl; counter_same = refl; verdict = inl refl }))
    | inr (inl e) ↦
        let q = send_verdict-IsQuiet (replied s) in
        inl (
          subst (IsQuiet s) (sym e) (record {
            ring_same = q.ring_same;
            counter_same = q.counter_same;
            verdict = q.verdict;
          }))
    | inr (inr e) ↦ inr e
  ]

  take_image_cases :
      (r : Reading) (s : Scanner S R)
      → IsQuiet s (take_image S R r s) ⊎ (take_image S R r s ≡ match_finger S R r (replied s))
  unfolding take_image
  take_image_cases r s = ground arith

  probe_sensor-IsQuiet : (r : Reading) (s : Scanner S R) → IsQuiet s (probe_sensor S R r s)
  unfolding probe_sensor
  probe_sensor-IsQuiet r s = ground arith

  scan_round_parts :
      (r : Reading) (s : Scanner S R)
      → IsQuiet s (scan_round S R r s) ⊎ (scan_round S R r s ≡ take_image S R r s)
  unfolding scan_round
  scan_round_parts r s = ground (arith, probe_sensor-IsQuiet r s)

  scan_round_cases :
      (r : Reading) (s : Scanner S R)
      → IsQuiet s (scan_round S R r s) ⊎ (scan_round S R r s ≡ store_punch S R r (matching r s))
  scan_round_cases r s = elim (scan_round_parts r s) [
    | inl q ↦ inl q
    | inr e ↦ elim (take_image_cases r s) [
      | inl q ↦ inl (subst (IsQuiet s) (sym e) q)
      | inr m ↦ elim (match-IsQuiet r s) [
        | inl q ↦ inl (subst (IsQuiet s) (sym (e ∙ m)) q)
        | inr f ↦ inr (e ∙ m ∙ f)
      ]
    ]
  ]

  quiet_verdict :
      (s s' : Scanner S R) (v : ℕ) → IsQuiet s s' → 0 < v → s'.feedback ≢ s.feedback ++ v ∷ []
  quiet_verdict s s' v q h e = elim q.verdict [
    | inl same ↦ snoc_longer s.feedback v (sym same ∙ e)
    | inr denied ↦ absurd (omega (arith, snoc_injective s.feedback 0 v (sym denied ∙ e)))
  ]

  store_punch_verdict :
      (r : Reading) (s : Scanner S R)
      → let (persisted, ring) = append S s.ring (punch_of S R r (add_u64 s.counter.seq 1) s) in
        ((store_punch S R r s).ring ≡ ring)
        × ((store_punch S R r s).counter.seq ≡ add_u64 s.counter.seq 1)
        × ((store_punch S R r s).status
            ≡ (if persisted then s.status else note_buffer_write_failed s.status))
        × (((store_punch S R r s).feedback ≡ s.feedback)
            ⊎ ((store_punch S R r s).feedback ≡ s.feedback ++ (if persisted then 1 else 2) ∷ []))
  unfolding store_punch send_verdict next_seq
  store_punch_verdict r s = (ground arith, ground arith, ground arith, ground arith)

  -- The punch that a round stores.
  abbrev pub next_punch : Reading → Scanner S R → PunchRecord
  next_punch r s = punch_of S R r (add_u64 s.counter.seq 1) s

  -- What a round has done that has stored a punch and reports it by the verdict `v`.
  abbrev Reported : Reading → Scanner S R → ℕ → Scanner S R → Type 0
  Reported r s v s' =
      let (persisted, ring) = append S s.ring (next_punch r s) in
      (s'.ring ≡ ring)
      × (s'.counter.seq ≡ add_u64 s.counter.seq 1)
      × (s'.status ≡ (
          if persisted
          then note_sensor_replied s.status
          else note_buffer_write_failed (note_sensor_replied s.status)))
      × ((if persisted then 1 else 2) ≡ v)

  store_punch-Reported :
      (r : Reading) (s : Scanner S R) (v : ℕ)
      → (store_punch S R r (matching r s)).feedback ≡ s.feedback ++ v ∷ []
      → Reported r s v (store_punch S R r (matching r s))
  unfolding punch_of
  store_punch-Reported r s v h =
      let (ring, seq, status, feedback) = store_punch_verdict r (matching r s) in
      (
        ring,
        seq,
        status,
        elim feedback [
          | inl same ↦ absurd (snoc_longer s.feedback v (sym same ∙ h))
          | inr sent ↦ snoc_injective s.feedback _ v (sym sent ∙ h)
        ],
      )

  -- A verdict other than `not matched` comes from an append, and says whether it succeeded.
  scan_round-Reported :
      (r : Reading) (s : Scanner S R) (v : ℕ)
      → 0 < v
      → (scan_round S R r s).feedback ≡ s.feedback ++ v ∷ []
      → Reported r s v (scan_round S R r s)
  scan_round-Reported r s v pos h = elim (scan_round_cases r s) [
    | inl q ↦ absurd (quiet_verdict s (scan_round S R r s) v q pos h)
    | inr e ↦
        subst (Reported r s v) (sym e)
          (store_punch-Reported r s v (ap (λ x. x.feedback) (sym e) ∙ h))
  ]

  -- Over a storage that keeps what it promises, a ring with the invariant whose head is not the
  -- last 64-bit value, and a punch whose fields fit: if a round of the scan task adds the
  -- verdict 1 to the feedback, then the ring that a restart opens has the invariant and holds
  -- the old slots (less the oldest of a full ring) with the sealed punch behind them, and the
  -- counter stands at the number of the punch.
  pub green_survives :
      IsReliable S
      → (r : Reading) (s : Scanner S R) → IsValid S s.ring
      → s.ring.head + 1 < u64_mod
      → Fits (next_punch r s)
      → (scan_round S R r s).feedback ≡ s.feedback ++ 1 ∷ []
      → let after = scan_round S R r s in
        let (opened, ring) = begin S after.ring.flash in
        (opened ≡ true)
        × IsValid S ring
        × (contents S ring ≡ push s.ring.slots (seal (next_punch r s)) (contents S s.ring))
        × (after.counter.seq ≡ (next_punch r s).seq)
  unfolding punch_of
  green_survives P r s valid small fits h =
      let (ring, seq, status, verdict) = scan_round-Reported r s 1 (omega arith) h in
      let persisted : (append S s.ring (next_punch r s)).0 ≡ true = ground arith in
      let (opened, again, kept) =
        confirmed_survives S P s.ring (next_punch r s) valid fits small persisted in
      (
        ap (λ x. (begin S x.flash).0) ring ∙ opened,
        subst (λ x. IsValid S (begin S x.flash).1) (sym ring) again,
        ap (λ x. contents S (begin S x.flash).1) ring ∙ kept,
        seq,
      )

  -- Where a round of a running terminal ends in red, the punch was not stored and the terminal
  -- serves no further: it is in its fault state.
  pub red_faults :
      (r : Reading) (s : Scanner S R)
      → s.status.phase ≡ running
      → (scan_round S R r s).feedback ≡ s.feedback ++ 2 ∷ []
      → let after = scan_round S R r s in
        ((append S s.ring (next_punch r s)).0 ≡ false)
        × (after.status.buffer_failed ≡ true)
        × (state after.status ≡ fault)
  unfolding state state_in note_buffer_write_failed note_sensor_replied
  red_faults r s h e =
      let (ring, seq, status, verdict) = scan_round-Reported r s 2 (omega arith) e in
      let failed : (append S s.ring (next_punch r s)).0 ≡ false = ground arith in
      (failed, ground arith, ground arith)
