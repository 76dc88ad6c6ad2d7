-- ===== src/Net/Upload.antt =====
-- firmware/src/main.cpp: `flushEvents`.
use presence_platform.Prelude.{
  ℕ, Bool, true, false, List, Bytes, codes, length, ◌==◌, if◌then◌else◌,
}
use presence_platform.Json.{parse_ack_through}
use presence_platform.Events.{BatchMeta, build_events_json}
use presence_platform.Punch.{PunchRecord}
use presence_platform.Ring.{depth, peek, ack_through}
use presence_platform.Clock.{negative, handle_clock_skew}
use presence_platform.Net.{World, Draw, Reply, Node, random_uuid, signed_post}

abbrev pub max_batch : ℕ
max_batch = 50

module _ (W : World) where
  unfoldable pub skew_clock : Draw → Bytes → Node W → Node W
  skew_clock d response n = record n {
    clock = handle_clock_skew W.rtc d.first_write d.second_write response n.clock;
  }

  -- The request of a batch, and its answer.
  unfoldable pub post_batch : List PunchRecord → Draw → Node W → Reply × Node W
  post_batch batch d n =
      let meta : BatchMeta = record {
        request_id = random_uuid d.uuid_words;
        device_uptime_ms = d.uptime_ms;
        buffer_depth = depth W.storage n.ring;
      } in
      signed_post W (codes "/v1/device/events") (build_events_json batch meta) d n

  -- The acknowledgement of an answer 200; a negative one is none.
  unfoldable pub accept_ack : ℕ → Node W → Bool × Node W
  accept_ack ack n =
      if negative ack
      then (false, n)
      else if ack == 0
      then (true, n)
      else (true, record n { ring = (ack_through W.storage n.ring ack).1 })

  unfoldable pub take_reply : Draw → Reply → Node W → Bool × Node W
  take_reply d reply n =
      if reply.code == 401
      then (false, skew_clock d reply.response n)
      else if reply.code == 200
      then accept_ack (parse_ack_through reply.response) n
      else (false, n)

  unfoldable pub flush_events : Draw → Node W → Bool × Node W
  flush_events d n =
      let batch = peek W.storage n.ring max_batch in
      let (reply, sent) = post_batch batch d n in
      if length batch == 0 then (true, n) else take_reply d reply sent
