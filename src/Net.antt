-- ===== src/Net.antt =====
-- firmware/src/main.cpp: the network task. Here are its requests and their signature; Upload has the
-- upload of events, Heartbeat the heartbeat, Backoff the waits, Firmware the update check. What the
-- platform is asked for is the parameter `World`.
pub mod Upload
pub mod Acked
pub mod Drain
pub mod Heartbeat
pub mod Backoff
pub mod Firmware
pub mod Round
use presence_platform.Prelude.{
  ℕ, zero, suc, ◌+◌, ◌*◌, ◌/◌, ◌%◌, ◌^◌, Bool, true, false, Option, none, some, List, [], ◌∷◌, ◌++◌,
  Bytes, codes, length, ◌==◌, if◌then◌else◌, u64_mod,
}
use presence_platform.Decimal.{json_int}
use presence_platform.Hex.{hex_digit, to_hex}
use presence_platform.Canonical.{canonical_string}
use presence_platform.Events.{format_uuid}
use presence_platform.Punch.{le_bytes}
use presence_platform.Storage.{Storage}
use presence_platform.Ring.{Ring}
use presence_platform.Terminal.{TerminalStatus}
use presence_platform.Clock.{Rtc, Clock, now_epoch_ms}
use presence_platform.Scan.{mark_uuid}
use presence_platform.Ota.Guard.{OtaGuard}
use presence_platform.Ota.Image.{Crypto}
use presence_platform.Update.{Sha256, Input, Partitions}

pub record Request : Type 0 where
  pub method : Bytes
  pub url : Bytes
  pub headers : List (Bytes × Bytes)
  pub body : Bytes

-- A status code is a 32-bit pattern, so that a transport error is one too.
pub record Reply : Type 0 where
  pub code : ℕ
  pub response : Bytes

pub record World : Type 1 where
  pub storage : Storage
  pub rtc : Rtc
  pub crypto : Crypto
  pub hash : Sha256
  pub partitions : Partitions
  pub input : Input
  -- `mbedtls_sha256` of a text, and `mbedtls_md_hmac` with a key
  pub sha256 : Bytes → Bytes
  pub hmac : Bytes → Bytes → Bytes
  -- `HTTPClient`: a request and its answer; a request for an image, its size and its stream
  pub Link : Type 0
  pub send : Link → Request → Reply × Link
  pub fetch : Link → Request → ℕ × ℕ × input.Source × Link
  -- `kFirmwareVersion`, and the key of ota_pubkey.h
  pub firmware_version : Bytes
  pub release_key : Bytes

abbrev pub api_base : Bytes
api_base = codes "https://api.example.com"

-- `device_id`, `key_version` in NVS, and `g_secret`.
pub record Identity : Type 0 where
  pub device_id : Bytes
  pub key_version : ℕ
  pub secret : Bytes

-- What the platform answers while a request is made: the random words of the nonce and of the
-- request's id, `time(nullptr)`, `esp_timer_get_time() / 1000`, the signal, the free heap, and
-- whether NVS takes the two writes of `handleClockSkew`.
pub record Draw : Type 0 where
  pub nonce_words : List ℕ
  pub uuid_words : List ℕ
  pub unix_time : ℕ
  pub uptime_ms : ℕ
  pub rssi : ℕ
  pub free_heap : ℕ
  pub first_write : Bool
  pub second_write : Bool

-- `%08x`, of which `n` digits are left.
unfoldable pub hex_word : ℕ → ℕ → Bytes
hex_word zero w = []
hex_word (suc n) w = hex_digit ((w / 16 ^ n) % 16) ∷ hex_word n w

unfoldable pub random_nonce : List ℕ → Bytes
random_nonce [] = []
random_nonce (w ∷ ws) = hex_word 8 w ++ random_nonce ws

unfoldable pub raw_bytes : List ℕ → Bytes
raw_bytes [] = []
raw_bytes (w ∷ ws) = le_bytes 4 w ++ raw_bytes ws

unfoldable pub random_uuid : List ℕ → Bytes
random_uuid words = format_uuid (mark_uuid 0 (raw_bytes words))

module _ (W : World) where
  -- The variables of main.cpp that the network task changes.
  pub record Node : Type 0 where
    pub link : W.Link
    pub identity : Identity
    pub ring : Ring W.storage
    pub clock : Clock W.rtc
    pub status : TerminalStatus
    pub guard : OtaGuard
    pub seq : ℕ
    pub backoff_ms : ℕ
    pub firmware_available : Bool
    -- `g_otaRejectedSha`, if `g_otaRejected`
    pub rejected_sha : Option Bytes
    pub flash : W.partitions.Flash

  -- The time that a request is signed with.
  unfoldable pub signing_time : Draw → Node → ℕ
  signing_time d n =
      let now = now_epoch_ms W.rtc n.clock in
      if now == 0 then (d.unix_time * 1000) % u64_mod else now

  unfoldable pub add_auth_headers : Bytes → Bytes → Bytes → Draw → Node → List (Bytes × Bytes)
  add_auth_headers method path body d n =
      let ts = signing_time d n in
      let nonce = random_nonce d.nonce_words in
      let digest = to_hex (W.sha256 body) in
      let sig = to_hex (W.hmac n.identity.secret (canonical_string method path ts nonce digest)) in
      (codes "X-Device-Id", n.identity.device_id)
      ∷ (codes "X-Key-Version", json_int n.identity.key_version)
      ∷ (codes "X-Timestamp", json_int ts)
      ∷ (codes "X-Nonce", nonce)
      ∷ (codes "X-Signature", sig)
      ∷ []

  unfoldable pub signed_post : Bytes → Bytes → Draw → Node → Reply × Node
  signed_post path body d n =
      let headers =
        (codes "Content-Type", codes "application/json")
        ∷ add_auth_headers (codes "POST") path body d n in
      let (reply, link) = W.send n.link (record {
        method = codes "POST";
        url = api_base ++ path;
        headers = headers;
        body = body;
      }) in
      (reply, record n { link = link })

  -- The query goes on the URL, not into the signature.
  unfoldable pub signed_get : Bytes → Bytes → Draw → Node → Reply × Node
  signed_get path query d n =
      let url = api_base ++ (path ++ (if length query == 0 then [] else codes "?" ++ query)) in
      let (reply, link) = W.send n.link (record {
        method = codes "GET";
        url = url;
        headers = add_auth_headers (codes "GET") path [] d n;
        body = [];
      }) in
      (reply, record n { link = link })
