-- ===== src/Setup/SoftAp.antt =====
-- firmware/src/wifi_softap.h: the stores of `Preferences`, `serveOne` and `runSoftApPortal`. The calls of
-- the Wi-Fi driver and of the DNS server have no result but `softAP`'s.
pub mod Ends
use presence_platform.Prelude.{
  ℕ, Bool, true, false, not, ◌&&◌, Option, none, some, List, [], ◌∷◌, ◌++◌, Bytes, codes, length,
  ◌==◌, if◌then◌else◌,
}
use presence_platform.Provision.Token.{ProvisionTokenRecord}
use presence_platform.Setup.Access.{SetupApKey, setup_key_usable}
use presence_platform.Setup.Fields.{WifiCredentials}
use presence_platform.Setup.Http.{HttpParse, parse_http_request}
use presence_platform.Setup.Portal.{
  Store, WifiPortal, PortalAction, no_action, reboot, close, begin, handle, tick,
}

-- `load`, `save` and `erase` of an entry of NVS for a record of `size` bytes; `taken` is whether NVS
-- takes the write, `removed` whether `remove` succeeds.
unfoldable pub load_record : ℕ → Option Bytes → Option Bytes
load_record size none = none
load_record size (some bytes) = if length bytes == size then some bytes else none

unfoldable pub save_record : Bool → Bytes → Option Bytes → Bool × Option Bytes
save_record taken bytes entry = if taken then (true, some bytes) else (false, entry)

unfoldable pub erase_record : Bool → Option Bytes → Bool × Option Bytes
erase_record removed none = (true, none)
erase_record removed (some bytes) = if removed then (true, none) else (false, some bytes)

-- The loop of `serveOne` over the reads of a client that is connected, until its two seconds are
-- over: a read is `none` where nothing has come. The result is `none` where the fuel of a parse is
-- spent, which does not happen.
unfoldable pub read_request : List (Option Bytes) → Bytes → Option HttpParse
read_request [] buf = some HttpParse.incomplete
read_request (none ∷ reads) buf = read_request reads buf
read_request (some chunk ∷ reads) buf =
    let rest = read_request reads (buf ++ chunk) in
    elim (parse_http_request (buf ++ chunk)) [
      | none ↦ none
      | some HttpParse.incomplete ↦ rest
      | some parsed ↦ some parsed
    ]

-- A turn of the portal's loop: the reads of a client, if there is one, with the time of its answer,
-- and the time of `tick`.
pub record PortalTurn : Type 0 where
  pub client : Option (List (Option Bytes))
  pub answer_ms : ℕ
  pub tick_ms : ℕ

-- How `runSoftApPortal` ends; `serving` where its turns are used up.
pub data PortalEnd : Type 0 where
  no_network restarted window_closed serving : PortalEnd

module _ {C T : Type 0} (wifi : Store C WifiCredentials)
    (tokens : Store T ProvisionTokenRecord) where
  unfoldable pub serve_one : List (Option Bytes) → ℕ → WifiPortal C T → WifiPortal C T
  serve_one reads now_ms p = elim (read_request reads []) [
    | none ↦ p
    | some parsed ↦ (handle wifi tokens parsed now_ms p).1
  ]

  unfoldable pub serve_client : PortalTurn → WifiPortal C T → WifiPortal C T
  serve_client turn p = elim turn.client [
    | none ↦ p
    | some reads ↦ serve_one reads turn.answer_ms p
  ]

  unfoldable pub serve_turns : List PortalTurn → WifiPortal C T → PortalEnd × WifiPortal C T
  serve_turns [] p = (serving, p)
  serve_turns (turn ∷ turns) p =
      let (action, after) = tick wifi tokens turn.tick_ms (serve_client turn p) in
      let rest = serve_turns turns after in
      elim action [
        | reboot ↦ (restarted, after)
        | close ↦ (window_closed, after)
        | no_action ↦ rest
      ]

  -- `up` is what `WiFi.softAP` answers.
  unfoldable pub run_soft_ap_portal :
      Bool → SetupApKey → ℕ → Bytes → List PortalTurn → WifiPortal C T → PortalEnd × WifiPortal C T
  run_soft_ap_portal up key now_ms ip turns p =
      let origin = codes "http://" ++ ip ++ codes "/" in
      if not (setup_key_usable key)
      then (no_network, p)
      else if not up
      then (no_network, p)
      else serve_turns turns (begin wifi tokens now_ms origin p)
