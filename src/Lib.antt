-- ===== src/Lib.antt =====
-- presence-platform: the decisions of the terminal's firmware (firmware/src), the code that must not
-- lose a punch, serve without its sensor or buffer, or install the wrong image.
--
-- A terminal takes punches, keeps each in a ring of records on flash (`RingBuffer` over `Storage`,
-- in a file that `ringCapacityBytes` sizes), uploads what the ring holds and drops what the gateway
-- acknowledges. Its state on the display (`TerminalStatus`) follows the sensor, the ring and the
-- device secret. Where it cannot join its network, or its button is held, it opens a portal whose
-- form sets the network and the token with which the terminal asks the gateway for its device
-- secret. `setup` opens the ring, restores the clock and the sequence numbers and starts two loops:
-- `scanTask` stores a punch before its light is green, `netTask` uploads, sends the heartbeat and asks
-- for updates. An update is an image with a signed version (`parseOtaVersion`) that `ImageVerifier`
-- checks; `OtaGuard` decides whether it may be installed, and whether the image that booted is
-- confirmed or rolled back. `canonicalString` is what signs each request to the gateway.
--
--   Crc        firmware/src/crc32.cpp: `crc32`, bit by bit; `~crc` is 2^32 - 1 - crc
--   Punch      firmware/src/ring_buffer.h: `PunchRecord` and its 60 bytes, little-endian as on the ESP32
--   Storage    firmware/src/ring_buffer.h: the abstract class `Storage` as a record of operations.
--              What the ring relies on is `IsReliable`; Storage.Memory is a storage that meets it
--   Ring       firmware/src/ring_buffer.h: `RingBuffer`. Ring.Log is its abstract view, a bounded log
--              of slots; Inv the invariant, Slots the file's layout, Refine the refinement, Recover
--              restarts and power cuts
--   Storage.LittleFs  firmware/src/littlefs_storage.h: the storage on a file, and the start of its ring; Reliable
--              has what the ring relies on, Opening what happens to an old file
--   Sizing     firmware/src/ring_buffer.h: `ringCapacityBytes`, `ringFileRewritable`
--   Terminal   firmware/src/terminal_state.h: `TerminalStatus`; Runs has its sequences of calls,
--              Probe the sensor's counters
--   Decimal    firmware/src/events_json.h: `jsonInt`
--   Json       firmware/src/events_json.h: `parseJsonInt`, `parseAckThrough`, `parseJsonBool`,
--              `parseJsonString`; Printing has the objects that they are compared on, Finding the search
--              for a key, Reading and Values what is read
--   Hex        firmware/src/canonical.h: `toHex`; firmware/src/ota_verify.h: `decodeHexExact`
--   Events     firmware/src/events_json.h: `formatRfc3339Utc`, `formatUuid`, `buildEventsJson`; Calendar
--              has the Gregorian calendar that its dates are compared with, Timestamp the text of a time
--   Provision.Base64  firmware/src/provision.h: `decodeBase64Exact`; Canonical has the encoding of
--              RFC 4648, Groups and Unique what an accepted text is, Exact both directions
--   Provision.Token  firmware/src/provision.h: `trimSpaces`, `makeTokenRecord`, `tokenRecordUsable`; Stored
--              has the way of a token through NVS
--   Provision.Reply  firmware/src/provision.h: `deviceSerial`, `buildProvisionBody`,
--              `classifyProvisionStatus`, `parseProvisionResponse`; Uuid has what a UUID is, Accepted the
--              accepted replies
--   Canonical  firmware/src/canonical.h: `toUpper`, `canonicalString`; Unambiguous has what its text fixes
--   Bench      firmware/src/bench_secret.h: `parseBenchSecretCommand`; Words has the words of a line and the
--              key version, Accepted the lines it accepts. The SHA-512 of Monocypher is a parameter
--   Ota.Version  firmware/src/ota_verify.h: `otaVersionCode`, `parseOtaVersion`, `formatOtaVersion`
--   Ota.Guard  firmware/src/ota_guard.h: `OtaGuard`; Check has its decision on a candidate, Floor the
--              version floor, Confirm the confirmation window, Rollback what is rolled back
--   Ota.Image  firmware/src/ota_verify.h: `isUnusableKey`, `Ed25519Stream`, `ImageVerifier`; Chunks has the
--              verdict on an image in chunks. The functions of Monocypher are the parameter `Crypto`,
--              of which `IsStreaming` asks that hashing goes on where it stopped
--   Ota.Manifest  firmware/src/ota_verify.h: `otaUrlIsGatewayPath`, `parseOtaManifest`; Path has the URLs,
--              Offers the manifests that are accepted
--   Setup.Hold  firmware/src/wifi_provision.h: `HoldTrigger`; Presses has its answers to a held button
--   Setup.Fallback  firmware/src/wifi_provision.h: `StationFallback`; Timing has when it is due
--   Setup.Fields  firmware/src/wifi_provision.h: `validateSsid`, `validatePassword`, `makeCredentials`,
--              `credentialsUsable`; Stored has their way through NVS
--   Setup.Form  firmware/src/wifi_provision.h: `percentDecode`, `parseWifiForm`; Decoding, Errors and
--              Reading have what they accept, refuse and return
--   Setup.Access  firmware/src/wifi_provision.h: the setup key, `parseSetupCommand`, `softApSsid`, `routePortal`; Keys
--              has a key's way from the bench to NVS
--   Setup.Http  firmware/src/wifi_provision.h: `parseHttpRequest`; Head has how far it gets, Line
--              its first line and lengths, Request the method and the path, Accepted its answers
--   Setup.Pages  firmware/src/wifi_provision.h: `htmlEscape`, `httpResponse` and the pages; Escaping has
--              what an escaped text is
--   Setup.Portal  firmware/src/wifi_provision.h: `WifiPortal`, over two stores (`Store`) that are
--              parameters; Stores has a checked save, Commit a saved form, Runs sequences of requests and ticks
--   Setup.SoftAp  firmware/src/wifi_softap.h: the stores in NVS, a client of the portal, `runSoftApPortal`; Ends has
--              when it ends
--   Update     firmware/src/main.cpp: `applyOta` over the parameters `Partitions` (esp_ota), `Sha256` and
--              `Input`; ReadBack has what is read back, Applied the image that is booted, Pending the
--              record of it in NVS, Refused all other ends
--   Clock      firmware/src/main.cpp: `nowEpochMs`, `handleClockSkew`, first contact; Skew the corrected clock
--   Scan       firmware/src/main.cpp: `nextSeq`, a round of `scanTask`, `feedbackTask`; Sequence has the numbers
--              given out, Confirmed what a light says of the ring
--   Net        firmware/src/main.cpp: the requests of the network task, over the parameter `World`. Net.Upload is
--              `flushEvents`, Acked what it drops, Drain repeated uploads; Net.Heartbeat is
--              `sendHeartbeat`; Net.Backoff `growBackoff` and `netSleep`; Net.Firmware `checkFirmware`,
--              and Firmware.Reboot its way to a reboot; Net.Round a round of `netTask`, and Round.Buffer
--              what it does to the ring
--   Device     firmware/src/main.cpp: the identity in NVS, `provisionDevice`, `benchSecretCommand`,
--              `handleSetupKey`; Commit has interrupted writes, BenchSecret a line of the bench
--   Boot       firmware/src/main.cpp: `setup`, `pollWifiReset`, `serialCommands`; Starts the state after it
--   Tests      runs on concrete inputs, one for each result
-- Prelude has what the files share: names of the library, Boolean tests, lists and machine words.
--
-- A function has its name of the source in lower case: `ackThrough` is `ack_through`, `notePending` is
-- `note_pending`. A method that changes its object takes the object last or first and returns the new
-- one, with its result before it; a result `false` with an output argument is `none`. Numbers are
-- natural numbers, with the wrap-around of their C type written out (`to_size` for the 32-bit
-- `size_t` of the ESP32, `add_u64`, `sub_u32`). Shifts that leave the low bits clear are products.
--
-- Loops are structural recursion: on the text that is left, on the bits of a byte, on the number of
-- positions between the cursors (`peek`, `ackThrough`, whose rounds are exactly head - tail). `jsonInt`
-- recurs on the 20 bytes of its buffer, which hold every 64-bit number. The loop of `parseHttpRequest`
-- over the headers has fuel for one round per byte of the head, and each round moves on by a byte at
-- least; its answer is an option that is `none` where the fuel is spent.
--
-- An update is read in pieces of 4096 bytes: `download` and `read_back` have one round per piece, the
-- size divided by 4096 and rounded up, and each round that goes on takes a whole piece or the rest.
-- `fill_zeros` has capacity / 480 + 1 rounds, one per block of zeros. `netSleep` has a round for each
-- second of its wait and one for the rest. The loop of the portal recurs on the list of turns that a
-- run has, and a round of a task is one function, so a task is a list of rounds.
--
-- Not modelled: the calls of the platform. They are parameters, with what the code relies on as a
-- record of hypotheses: the file system and the entries of NVS (`FileSystem`, `Entry`), the clock chip
-- (`Rtc`), the partitions (`Partitions`), the hashes and HTTP (`World`), the answers that `OtaGuard` gets
-- (`Answers`) and NVS as a record for the identity (`DeviceNvs`). Left out of main.cpp are the bindings
-- of `OtaGuard` to ESP-IDF and NVS, the locks, the branches of `netTask` that reconnect the Wi-Fi or open
-- the portal, `benchSerialOta`, the console's messages and the set-up of pins and tasks. The vendored
-- Monocypher is a parameter; the gateway in Go and its database are another program. Wiping secrets
-- from memory has no counterpart in the model. Each method of `TerminalStatus` and `OtaGuard` is one
-- step, and so is each part of a round: what two tasks may do between two loads of one method is
-- outside the model. The names of states that only the log gets are left out. `parseJsonInt` wraps at
-- 2^64 where the source overflows a signed integer.
pub mod Prelude
pub mod Crc
pub mod Punch
pub mod Storage
pub mod Ring
pub mod Terminal
pub mod Sizing
pub mod Decimal
pub mod Json
pub mod Hex
pub mod Events
pub mod Provision
pub mod Bench
pub mod Ota
pub mod Canonical
pub mod Setup
pub mod Update
pub mod Clock
pub mod Scan
pub mod Net
pub mod Device
pub mod Boot
mod Tests
