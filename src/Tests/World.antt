-- ===== src/Tests/World.antt =====
-- A world in memory: a ring of two slots, partitions, a gateway that answers from a list.
use presence_platform.Prelude.{
  ℕ, ◌+◌, refl, sym, ap, ap₂, ◌∙◌, true, false, Option, none, some, List, [], ◌∷◌, ◌++◌,
  append_assoc, Bytes, bytes_eq, codes, length, take, drop, replicate, u32_mod, ◌%◌,
}
use mathlib.Core.Option.{some-injective}
use presence_platform.Storage.Memory.{memory_storage, slice, overlay, slice-append, length-slice}
use presence_platform.Terminal.{power_on}
use presence_platform.Clock.{Rtc}
use presence_platform.Ota.Image.{Crypto}
use presence_platform.Ota.Image.Chunks.{IsStreaming}
use presence_platform.Ota.Guard.{Answers, OtaGuard, fresh_state, OtaBootKind}
use presence_platform.Update.{Sha256, Input, Partitions}
use presence_platform.Update.ReadBack.{IsPartitioned, IsIncremental}
use presence_platform.Update.Refused.{IsBootKept}
use presence_platform.Net.{World, Draw, Reply, Node}

-- The hash of a message is the message. A signature is right if its second half starts the message.
abbrev pub plain_crypto : Crypto
plain_crypto = record {
  Ctx = Bytes;
  sha512_init = [];
  sha512_update = λ c b. c ++ b;
  sha512_final = λ c. c;
  eddsa_reduce = λ h. h;
  check_equation = λ sig key h. bytes_eq (drop 32 sig) (take 32 h);
}

pub plain_crypto-IsStreaming : IsStreaming plain_crypto
plain_crypto-IsStreaming = record { update-update = λ c a b. append_assoc c a b }

abbrev pub plain_hash : Sha256
plain_hash = record { Ctx = Bytes; starts = []; update = λ c b. c ++ b; digest = λ c. c }

pub plain_hash-IsIncremental : IsIncremental plain_hash
plain_hash-IsIncremental = record { update_twice = λ c a b. append_assoc c a b }

-- One slot, number 1, in a flash that starts from slot 0.
abbrev pub Cells : Type 0
Cells = (ℕ → ℕ) × ℕ × Option ℕ

abbrev pub partitions : Partitions
partitions = record {
  Flash = Cells;
  Slot = ℕ;
  Handle = ℕ;
  slot_size = λ s. 8192;
  next_update = λ f. some 1;
  ota_begin = λ (cells, end, boot) s n. (some s, (λ a. 255, 0, boot));
  ota_write = λ (cells, end, boot) h b. (true, (overlay cells end b, end + length b, boot));
  ota_end = λ f h. (true, f);
  ota_abort = λ f h. f;
  read = λ (cells, end, boot) s o n. some (slice cells o n);
  erase_range = λ (cells, end, boot) s o n. (λ a. 255, 0, boot);
  set_boot = λ (cells, end, boot) s. (true, (cells, end, some s));
  boot = λ (cells, end, boot). boot;
}

pub partitions-IsPartitioned : IsPartitioned partitions
partitions-IsPartitioned = record {
  read_join = λ f s o m n a b ha hb.
      ap some (slice-append f.0 o m n ∙ ap₂ ◌++◌ (some-injective _ _ ha) (some-injective _ _ hb));
  length-read = λ f s o n b h. ap length (sym (some-injective _ _ h)) ∙ length-slice f.0 o n;
  boot-set_boot = λ f s h. refl;
  read-set_boot = λ f s t o n. refl;
}

pub partitions-IsBootKept : IsBootKept partitions
partitions-IsBootKept = record {
  boot-ota_begin = λ f s n. refl;
  boot-ota_write = λ f h b. refl;
  boot-ota_end = λ f h. refl;
  boot-ota_abort = λ f h. refl;
  boot-erase_range = λ f s o n. refl;
  boot-set_boot_failed = λ f s h. cc h;
}

-- A stream that holds what is left of it.
abbrev pub stream : Input
stream = record { Source = Bytes; read_bytes = λ s n. (take n s, drop n s) }

abbrev pub chip : Rtc
chip = record { Chip = ℕ; unixtime = λ c. c % u32_mod; adjust = λ c t. t }

-- The gateway gives the replies of a list in turn.
abbrev pub next_reply : List Reply → Reply × List Reply
next_reply [] = (record { code = 500; response = [] }, [])
next_reply (r ∷ rs) = (r, rs)

-- Any image request gets the three bytes of an image.
abbrev pub world : World
world = record {
  storage = memory_storage 120;
  rtc = chip;
  crypto = plain_crypto;
  hash = plain_hash;
  partitions = partitions;
  input = stream;
  sha256 = λ b. take 32 b;
  hmac = λ k b. take 32 (k ++ b);
  Link = List Reply;
  send = λ link q. next_reply link;
  fetch = λ link q. (200, 3, 1 ∷ 2 ∷ 3 ∷ [], link);
  firmware_version = codes "1.0.0";
  release_key = replicate 32 7;
}

abbrev pub guard : OtaGuard
guard = record {
  nvs = none;
  st = fresh_state;
  running = 1048576;
  running_ok = true;
  awaiting = false;
  deadline_armed = false;
  healthy = true;
  rollback_requested = false;
  boot_ms = 0;
  timeout_ms = 600000;
  kind = OtaBootKind.normal;
  trace = [];
}

abbrev pub taken : Answers
taken = record { mark_ok = true; arm_ok = true; save_ok = true; clear_ok = true }

abbrev pub draw : Draw
draw = record {
  nonce_words = 1 ∷ 2 ∷ 3 ∷ 4 ∷ [];
  uuid_words = 5 ∷ 6 ∷ 7 ∷ 8 ∷ [];
  unix_time = 1700000000;
  uptime_ms = 5000;
  rssi = 0;
  free_heap = 100000;
  first_write = true;
  second_write = true;
}

-- Two records may be in the ring; it starts with two torn slots.
abbrev pub node : List Reply → Node world
node replies = record {
  link = replies;
  identity = record { device_id = codes "d"; key_version = 1; secret = replicate 32 9 };
  ring = record {
    flash = record { byte_at = λ a. 0; cursors = (7, 5) };
    slots = 2;
    head = 7;
    tail = 5;
  };
  clock = record { chip = 1700000000; offset = 0; trusted = true; saved_offset = none };
  status = power_on;
  guard = guard;
  seq = 7;
  backoff_ms = 5000;
  firmware_available = true;
  rejected_sha = none;
  flash = (λ a. 255, 0, some 0);
}
