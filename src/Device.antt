-- ===== src/Device.antt =====
-- firmware/src/main.cpp: the identity of the terminal: `storeDeviceIdentity`, `provisionDevice`,
-- `tokenFieldMode`, `haveSetupKey`, `benchSecretCommand`, `handleSetupKey`. The entries of NVS are a
-- record; a write that fails leaves its entry as it was.
pub mod Commit
pub mod BenchSecret
use presence_platform.Prelude.{
  ℕ, zero, suc, ◌+◌, ◌%◌, Bool, true, false, not, ◌&&◌, Option, none, some, [], ◌∷◌, ◌++◌, Bytes,
  bytes_eq, codes, length, take, ◌==◌, if◌then◌else◌,
}
use presence_platform.Setup.Access.{SetupApKey, make_setup_key, load_usable_setup_key}
use presence_platform.Setup.Pages.{TokenField}
use presence_platform.Provision.Token.{
  ProvisionTokenRecord, provision_token_hex_chars, load_usable_token,
}
use presence_platform.Provision.Reply.{
  ProvisionStatus, classify_provision_status, device_secret_bytes, ProvisionResult, device_serial,
  build_provision_body, parse_provision_response,
}
use presence_platform.Terminal.{TerminalStatus, set_provisioned}
use presence_platform.Bench.{BenchSecretParse, parse_bench_secret_command}
use presence_platform.Net.{Request, Reply, api_base}

-- The entries `device_id`, `key_version`, `device_secret`, `prov_token`, `ap_key`.
pub record DeviceNvs : Type 0 where
  pub device_id : Option Bytes
  pub key_version : Option ℕ
  pub device_secret : Option Bytes
  pub token : Option ProvisionTokenRecord
  pub setup_key : Option SetupApKey

-- What NVS answers in one call: whether the three writes are taken, whether `remove` succeeds, and
-- what a `getBytes` reads of an entry.
pub record NvsAnswers : Type 0 where
  pub id_taken : Bool
  pub version_taken : Bool
  pub secret_taken : Bool
  pub removes : Bool
  pub key_taken : Bool
  pub reads : Bytes → Bytes

unfoldable pub put_id : NvsAnswers → Bytes → DeviceNvs → DeviceNvs
put_id a id nvs = if a.id_taken then record nvs { device_id = some id } else nvs

unfoldable pub put_version : NvsAnswers → ℕ → DeviceNvs → DeviceNvs
put_version a v nvs = if a.version_taken then record nvs { key_version = some v } else nvs

unfoldable pub put_secret : NvsAnswers → Bytes → DeviceNvs → DeviceNvs
put_secret a secret nvs = if a.secret_taken then record nvs { device_secret = some secret } else nvs

-- `getBytes(...) == sizeof(back) && memcmp(...) == 0`
unfoldable pub secret_matches : NvsAnswers → Bytes → DeviceNvs → Bool
secret_matches a secret nvs = elim nvs.device_secret [
  | none ↦ false
  | some stored ↦ length (a.reads stored) == device_secret_bytes && bytes_eq (a.reads stored) secret
]

-- Behind the second and the third write of `storeDeviceIdentity`, which stops at one that fails.
unfoldable pub put_two : NvsAnswers → ProvisionResult → DeviceNvs → DeviceNvs
put_two a r nvs =
    let nvs1 = put_id a r.device_id nvs in
    if a.id_taken then put_version a r.key_version nvs1 else nvs1

unfoldable pub put_three : NvsAnswers → ProvisionResult → DeviceNvs → DeviceNvs
put_three a r nvs =
    let nvs2 = put_two a r nvs in
    if a.id_taken && a.version_taken then put_secret a r.secret nvs2 else nvs2

-- Where a power cut may leave NVS: behind so many of the writes.
unfoldable pub identity_writes : ℕ → NvsAnswers → ProvisionResult → DeviceNvs → DeviceNvs
identity_writes zero a r nvs = nvs
identity_writes (suc zero) a r nvs = put_id a r.device_id nvs
identity_writes (suc (suc zero)) a r nvs = put_two a r nvs
identity_writes (suc (suc (suc n))) a r nvs = put_three a r nvs

unfoldable pub store_device_identity : NvsAnswers → ProvisionResult → DeviceNvs → Bool × DeviceNvs
store_device_identity a r nvs =
    let after = put_three a r nvs in
    if not (a.id_taken && a.version_taken && a.secret_taken)
    then (false, after)
    else (secret_matches a r.secret after, after)

-- `!nvs_->isKey(key_) || nvs_->remove(key_)`
unfoldable pub erase_token : NvsAnswers → DeviceNvs → DeviceNvs
erase_token a nvs = if a.removes then record nvs { token = none } else nvs

unfoldable pub token_field_mode : DeviceNvs → TokenField
token_field_mode nvs = elim nvs.device_secret [
  | some secret ↦ TokenField.hidden
  | none ↦ if (load_usable_token nvs.token).0 then TokenField.optional else TokenField.required
]

unfoldable pub have_setup_key : DeviceNvs → Bool
have_setup_key nvs = (load_usable_setup_key nvs.setup_key).0

-- What `provisionDevice` changes.
pub record Device : Type 0 where
  pub nvs : DeviceNvs
  pub secret : Bytes
  pub status : TerminalStatus

unfoldable pub provision_request : Bytes → Bytes → ProvisionTokenRecord → Request
provision_request mac firmware_version token = record {
  method = codes "POST";
  url = api_base ++ codes "/v1/device/provision";
  headers =
      (codes "Content-Type", codes "application/json")
      ∷ (codes "X-Provision-Token", take provision_token_hex_chars token.token)
      ∷ [];
  body = build_provision_body (device_serial mac) firmware_version;
}

-- The identity of an accepted reply: stored, and then used.
unfoldable pub adopt_identity : NvsAnswers → ProvisionResult → Device → Bool × Device
adopt_identity a r d =
    let (ok, nvs) = store_device_identity a r d.nvs in
    if ok
    then (
      true,
      record { nvs = erase_token a nvs; secret = r.secret; status = set_provisioned true d.status },
    )
    else (false, record d { nvs = nvs })

unfoldable pub take_provision_reply : NvsAnswers → Reply → Device → Bool × Device
take_provision_reply a reply d = elim (classify_provision_status reply.code) [
  | ProvisionStatus.refused ↦ (false, record d { nvs = erase_token a d.nvs })
  | ProvisionStatus.retry ↦ (false, d)
  | ProvisionStatus.ok ↦ elim (parse_provision_response reply.response) [
    | none ↦ (false, d)
    | some r ↦ adopt_identity a r d
  ]
]

-- `post` is what the gateway answers.
unfoldable pub provision_device :
    NvsAnswers → (Request → Reply) → Bytes → Bytes → Device → Bool × Device
provision_device a post mac firmware_version d =
    let (usable, token) = load_usable_token d.nvs.token in
    if usable
    then take_provision_reply a (post (provision_request mac firmware_version token)) d
    else (false, d)

-- `g_nvs.remove("device_secret")`
unfoldable pub remove_secret : Bool → DeviceNvs → DeviceNvs
remove_secret removed nvs = if removed then record nvs { device_secret = none } else nvs

-- The entries that `benchSecretCommand` reads back.
unfoldable pub identity_matches : NvsAnswers → ProvisionResult → DeviceNvs → Bool
identity_matches a r nvs =
    elim nvs.device_id [ none ↦ bytes_eq [] r.device_id | some id ↦ bytes_eq id r.device_id ]
    && elim nvs.key_version [ none ↦ r.key_version == 0 | some v ↦ v == r.key_version ]
    && secret_matches a r.secret nvs

unfoldable pub store_bench_secret :
    NvsAnswers → Bool → ProvisionResult → DeviceNvs → Bool × DeviceNvs
store_bench_secret a removes_again r nvs =
    let (stored, after) = store_device_identity a r nvs in
    if stored && identity_matches a r after
    then (true, after)
    else (false, remove_secret removes_again after)

-- The answers of `benchSecretCommand`; `restarts` comes with a restart.
pub data BenchAnswer : Type 0 where
  not_ours_line rejected_line uncleared unstored restarts : BenchAnswer

-- `a.removes` is the first `remove`, the other argument the one behind a failed store.
unfoldable pub bench_secret_command :
    NvsAnswers → Bool → Bytes → DeviceNvs → BenchAnswer × DeviceNvs
bench_secret_command a removes_again line nvs = elim (parse_bench_secret_command line) [
  | BenchSecretParse.not_ours ↦ (not_ours_line, nvs)
  | BenchSecretParse.ok id secret version ↦
      let r : ProvisionResult = record {
        device_id = id;
        secret = secret;
        key_version = version;
        server_time_ms = 0;
      } in
      let clear : Bool = elim nvs.device_secret [ none ↦ true | some old ↦ a.removes ] in
      let (stored, after) =
        store_bench_secret a removes_again r (record nvs { device_secret = none }) in
      if not clear then (uncleared, nvs) else (if stored then restarts else unstored, after)
  | _ ↦ (rejected_line, nvs)
]

unfoldable pub same_setup_key : Option SetupApKey → SetupApKey → Bool
same_setup_key none key = false
same_setup_key (some back) key = back.magic == key.magic && bytes_eq back.key key.key

unfoldable pub handle_setup_key : NvsAnswers → Bytes → DeviceNvs → Bool × DeviceNvs
handle_setup_key a text nvs =
    let (made, key) = make_setup_key text in
    let after = (if a.key_taken then record nvs { setup_key = some key } else nvs) in
    if not made then (false, nvs) else (a.key_taken && same_setup_key after.setup_key key, after)
