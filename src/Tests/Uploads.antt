-- ===== src/Tests/Uploads.antt =====
-- The scan task and the uploads in the world of Tests.World.
use presence_platform.Prelude.{
  ◌≡◌, ◌⊎◌, inr, refl, sym, ap, subst, ◌∙◌, All, take, true, none, some, [], ◌∷◌, codes, drop,
  replicate, arith,
}
use presence_platform.Punch.{PunchRecord, seal, to_bytes}
use presence_platform.Punch.Layout.{Fits}
use presence_platform.Storage.{Storage}
use presence_platform.Storage.Memory.{memory_storage, memory-IsReliable, write}
use presence_platform.Ring.{Ring, good, begin, append, write_head, make_room, full, depth, commit}
use presence_platform.Ring.Log.{goods, push, evict}
use presence_platform.Ring.Inv.{IsValid, append-IsValid}
use presence_platform.Ring.Slots.{contents}
use presence_platform.Terminal.{power_on, running, state}
use presence_platform.Scan.{
  Reading, image_taken, Scanner, punch_of, scan_round, take_image, match_finger, store_punch,
  mark_uuid, send_verdict,
}
use presence_platform.Clock.{now_epoch_ms, rtc_ms, time_source_code}
use presence_platform.Scan.Sequence.{Ascends}
use presence_platform.Json.{
  parse_ack_through, parse_json_int, signed_value, find_value, after_prefix, quoted, after_colon,
  skip_spaces, is_space, read_signed, read_unsigned, json_digit, read_value,
}
use presence_platform.Ring.Refine.{append-contents, peek-contents}
use presence_platform.Scan.Confirmed.{next_punch, green_survives}
use presence_platform.Net.{Reply, Node, signed_post}
use presence_platform.Net.Upload.{max_batch, post_batch, flush_events}
use presence_platform.Net.Acked.{OnlyAcked, held, batch, reply_of}
use presence_platform.Net.Drain.{flush_all, Readable, seqs, last_seq, IsOrdered, flush_all-goods}
use presence_platform.Net.Round.{RoundInput, NetState, work_round}
use presence_platform.Net.Round.Buffer.{before_flush, work_round-OnlyAcked}
use presence_platform.Tests.World.{chip, world, taken, draw, node}

abbrev memory : Storage
memory = memory_storage 120

abbrev scanner : Scanner memory chip
scanner = record {
  ring = record {
    flash = record { byte_at = λ a. 0; cursors = (7, 5) };
    slots = 2;
    head = 7;
    tail = 5;
  };
  clock = record { chip = 1700000000; offset = 0; trusted = true; saved_offset = none };
  status = record power_on {
    phase = running;
    sensor_ok = true;
    buffer_ok = true;
    provisioned = true;
  };
  counter = record { seq = 7; saved = some 7 };
  last_slot = 0;
  last_slot_at_ms = 0;
  last_probe_ms = 0;
  feedback = [];
}

abbrev finger : Reading
finger = record {
  now_ms = 9000;
  after_ms = 9001;
  password_ok = true;
  image = image_taken;
  converted = true;
  matched = true;
  finger_id = 42;
  confidence = 180;
  uptime_ms = 9000;
  random = replicate 16 7;
  seq_written = true;
}

scanner-IsValid : IsValid memory scanner.ring
scanner-IsValid = omega arith

green : (scan_round memory chip finger scanner).feedback ≡ 1 ∷ []
unfolding scan_round state take_image match_finger store_punch append write_head write make_room
    full depth to_bytes seal punch_of mark_uuid commit send_verdict
green = refl

next_punch-Fits : Fits (next_punch memory chip finger scanner)
unfolding punch_of now_epoch_ms rtc_ms time_source_code mark_uuid
next_punch-Fits = record {
  seq_fits = omega arith;
  epoch_fits = omega arith;
  uptime_fits = omega arith;
  uuid_fits = refl;
  slot_fits = omega arith;
  score_fits = omega arith;
  kind_fits = omega arith;
  source_fits = omega arith;
  hint_fits = omega arith;
  reserved_fits = refl;
  crc_fits = omega arith;
}

green_survives_example :
    let after = scan_round memory chip finger scanner in
    let (opened, ring) = begin memory after.ring.flash in
    (opened ≡ true)
    × IsValid memory ring
    × (contents memory ring
        ≡ push 2 (seal (next_punch memory chip finger scanner)) (contents memory scanner.ring))
    × (after.counter.seq ≡ (next_punch memory chip finger scanner).seq)
green_survives_example =
    green_survives memory chip (memory-IsReliable 120) finger scanner scanner-IsValid (omega arith)
      next_punch-Fits green

-- One record waits, with the number 8.
abbrev empty_ring : Ring memory
empty_ring = record scanner.ring { tail = 7 }

abbrev waiting_punch : PunchRecord
waiting_punch = next_punch memory chip finger scanner

waiting_written : (write_head memory (make_room memory empty_ring) waiting_punch).1 ≡ true
unfolding write_head make_room full depth write to_bytes seal punch_of mark_uuid
waiting_written = refl

abbrev waiting_ring : Ring memory
waiting_ring = (append memory empty_ring waiting_punch).1

waiting_contents : contents memory waiting_ring ≡ good (seal waiting_punch) ∷ []
unfolding push evict
waiting_contents = rw waiting_written at (
    append-contents memory (memory-IsReliable 120) empty_ring waiting_punch (omega arith)
      next_punch-Fits (omega arith))

waiting_ring-IsOrdered : IsOrdered world waiting_ring
unfolding goods seal punch_of
waiting_ring-IsOrdered = record {
  valid = append-IsValid memory empty_ring waiting_punch (omega arith) (omega arith);
  readable = subst (All Readable) (sym waiting_contents) (tt, tt);
  ascending = subst (λ xs. Ascends 0 (seqs (goods xs))) (sym waiting_contents) (omega arith, tt);
}

abbrev ack_reply : Reply
ack_reply = record { code = 200; response = codes "{\"ack_through\":8}" }

abbrev waiting_node : Node world
waiting_node = record (node (ack_reply ∷ [])) { ring = waiting_ring }

waiting_batch : last_seq 0 (batch world waiting_node) ≡ 8
unfolding last_seq goods seal punch_of
waiting_batch =
    ap (last_seq 0) (peek-contents memory waiting_ring max_batch)
    ∙ ap (λ xs. last_seq 0 (take max_batch (goods xs))) waiting_contents

ack_reply_parses : parse_ack_through ack_reply.response ≡ 8
unfolding parse_ack_through parse_json_int signed_value find_value after_prefix quoted after_colon
    skip_spaces is_space read_signed read_unsigned json_digit read_value
ack_reply_parses = refl

replied : reply_of world draw waiting_node ≡ ack_reply
unfolding post_batch signed_post
replied = refl

flush_all-goods_example :
    IsOrdered world (flush_all world (draw ∷ []) waiting_node).ring
    × (goods (held world (flush_all world (draw ∷ []) waiting_node))
        ≡ drop 50 (goods (held world waiting_node)))
flush_all-goods_example =
    flush_all-goods world (memory-IsReliable 120) (draw ∷ []) waiting_node waiting_ring-IsOrdered (
      inr (
        ap (λ r. r.code) replied,
        ap (λ r. parse_ack_through r.response) replied ∙ ack_reply_parses ∙ sym waiting_batch,
        omega (arith, waiting_batch),
        omega (arith, waiting_batch),
      ),
      tt,
    )

abbrev world_input : RoundInput
world_input = record {
  now_ms = 100000;
  random = 77;
  has_buffer = true;
  healthy_answers = taken;
  update_answers = taken;
  heartbeat_draw = draw;
  flush_draw = draw;
  manifest_draw = draw;
  image_draw = draw;
}

abbrev net_state : NetState world
net_state = record {
  node = node (
      record { code = 200; response = codes "{}" }
      ∷ record { code = 200; response = codes "{\"ack_through\":9}" }
      ∷ []);
  last_heartbeat = 0;
  last_flush = 0;
}

net_state-IsValid : IsValid memory net_state.node.ring
net_state-IsValid = omega arith

work_round-OnlyAcked_example :
    let n = before_flush world world_input net_state in
    ((work_round world world_input net_state).1.node.ring ≡ net_state.node.ring)
    ⊎ (((work_round world world_input net_state).1.node.ring ≡ (flush_events world draw n).1.ring)
        × OnlyAcked world (reply_of world draw n) net_state.node.ring (flush_events world draw n))
work_round-OnlyAcked_example =
    work_round-OnlyAcked world (memory-IsReliable 120) world_input net_state net_state-IsValid
