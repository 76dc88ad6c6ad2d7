-- ===== src/Net/Acked.antt =====
-- firmware/src/main.cpp: `flushEvents` takes out of the buffer only what is acknowledged.
use presence_platform.Prelude.{
  ℕ, ◌^◌, ◌<◌, ◌≡◌, ◌⊎◌, inl, inr, refl, sym, subst, ap, ◌∙◌, Bool, true, false, List, [], ◌∷◌,
  Bytes, codes, drop, arith, some, Option-cases,
}
use presence_platform.Json.{parse_json_int, parse_ack_through}
use presence_platform.Punch.{PunchRecord}
use presence_platform.Storage.{IsReliable}
use presence_platform.Ring.{Slot, Ring, peek, ack_through}
use presence_platform.Ring.Log.{acked_prefix}
use presence_platform.Ring.Inv.{IsValid}
use presence_platform.Ring.Slots.{contents}
use presence_platform.Ring.Refine.{ack_through-contents}
use presence_platform.Clock.{negative}
use presence_platform.Net.{World, Draw, Reply, Node, signed_post}
use presence_platform.Net.Upload.{
  max_batch, skew_clock, post_batch, accept_ack, take_reply, flush_events,
}

parse_ack_through-some :
    (response : Bytes)
    → negative (parse_ack_through response) ≡ false
    → parse_json_int response (codes "ack_through") ≡ some (parse_ack_through response)
unfolding parse_ack_through negative
parse_ack_through-some response h =
    elim (Option-cases (parse_json_int response (codes "ack_through"))) [
      | inl e ↦ absurd (ground arith)
      | inr (v, e) ↦ ground arith
    ]

module _ (W : World) where
  abbrev pub held : Node W → List Slot
  held n = contents W.storage n.ring

  abbrev pub batch : Node W → List PunchRecord
  batch n = peek W.storage n.ring max_batch

  -- The answer that a flush gets.
  abbrev pub reply_of : Draw → Node W → Reply
  reply_of d n = (post_batch W (batch n) d n).0

  pub post_batch-ring :
      (rs : List PunchRecord) (d : Draw) (n : Node W) → (post_batch W rs d n).1.ring ≡ n.ring
  unfolding post_batch signed_post
  post_batch-ring rs d n = refl

  -- What may happen to the buffer: nothing, or the acknowledgement of an answer 200.
  abbrev pub OnlyAcked : Reply → Ring W.storage → Bool × Node W → Type 0
  OnlyAcked reply ring (flushed, after) =
      (after.ring ≡ ring)
      ⊎ ((ack : ℕ) × (reply.code ≡ 200)
          × (parse_json_int reply.response (codes "ack_through") ≡ some ack)
          × (0 < ack)
          × (ack < 2 ^ 63)
          × (flushed ≡ true)
          × (held after
              ≡ drop (acked_prefix ack (contents W.storage ring)) (contents W.storage ring)))

  accept_ack_cases :
      (ack : ℕ) (n : Node W)
      → ((accept_ack W ack n).1 ≡ n)
        ⊎ ((negative ack ≡ false)
            × (0 < ack)
            × (ack < 2 ^ 63)
            × (accept_ack W ack n
                ≡ (true, record n { ring = (ack_through W.storage n.ring ack).1 })))
  unfolding accept_ack negative
  accept_ack_cases ack n = ground arith

  pub take_reply_cases :
      (d : Draw) (reply : Reply) (n : Node W)
      → ((take_reply W d reply n).1.ring ≡ n.ring)
        ⊎ ((reply.code ≡ 200)
            × (take_reply W d reply n ≡ accept_ack W (parse_ack_through reply.response) n))
  unfolding take_reply skew_clock
  take_reply_cases d reply n = ground arith

  take_reply-OnlyAcked :
      IsReliable W.storage
      → (d : Draw) (reply : Reply) (n : Node W) → IsValid W.storage n.ring
      → OnlyAcked reply n.ring (take_reply W d reply n)
  take_reply-OnlyAcked R d reply n v = elim (take_reply_cases d reply n) [
    | inl e ↦ inl e
    | inr (ok, e) ↦ elim (accept_ack_cases (parse_ack_through reply.response) n) [
      | inl same ↦ inl (ap (λ x. x.1.ring) e ∙ ap (λ x. x.ring) same)
      | inr (sign, pos, bound, after) ↦
          let ack = parse_ack_through reply.response in
          let dropped = ack_through-contents W.storage R n.ring ack v in
          inr (
            ack,
            ok,
            parse_ack_through-some reply.response sign,
            pos,
            bound,
            ap (λ x. x.0) (e ∙ after),
            ap (λ x. held x.1) (e ∙ after) ∙ dropped.1,
          )
    ]
  ]

  pub flush_events_cases :
      (d : Draw) (n : Node W)
      → ((batch n ≡ []) × (flush_events W d n ≡ (true, n)))
        ⊎ (flush_events W d n ≡ take_reply W d (reply_of d n) (post_batch W (batch n) d n).1)
  unfolding flush_events
  flush_events_cases d n = go (batch n) refl
    where
      go :
          (rs : List PunchRecord)
          → batch n ≡ rs
          → ((batch n ≡ []) × (flush_events W d n ≡ (true, n)))
            ⊎ (flush_events W d n ≡ take_reply W d (reply_of d n) (post_batch W (batch n) d n).1)
      go [] e = inl (e, ground arith)
      go (r ∷ rs) e = inr (ground arith)

  -- The ring is as it was, or the reply to the batch was good, had the number that is acknowledged
  -- and the ring is what `ackThrough` makes of it.
  pub flush_events-OnlyAcked :
      IsReliable W.storage
      → (d : Draw) (n : Node W) → IsValid W.storage n.ring
      → OnlyAcked (reply_of d n) n.ring (flush_events W d n)
  flush_events-OnlyAcked R d n v =
      let sent = (post_batch W (batch n) d n).1 in
      let same = post_batch-ring (batch n) d n in
      elim (flush_events_cases d n) [
        | inl (none_left, e) ↦ inl (ap (λ x. x.1.ring) e)
        | inr e ↦
            let r =
              take_reply-OnlyAcked R d (reply_of d n) sent
                (subst (IsValid W.storage) (sym same) v) in
            subst (OnlyAcked (reply_of d n) n.ring) (sym e)
              (subst (λ x. OnlyAcked (reply_of d n) x (take_reply W d (reply_of d n) sent)) same r)
      ]
