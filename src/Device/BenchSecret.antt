-- ===== src/Device/BenchSecret.antt =====
-- firmware/src/main.cpp: `benchSecretCommand` never leaves half an identity.
use presence_platform.Prelude.{ℕ, ◌≡◌, ◌⊎◌, inl, inr, true, false, none, Bytes, arith, Bool-cases}
use presence_platform.Provision.Reply.{ProvisionResult}
use presence_platform.Bench.{BenchSecretParse, parse_bench_secret_command}
use presence_platform.Device.{
  DeviceNvs, NvsAnswers, store_device_identity, remove_secret, store_bench_secret, BenchAnswer,
  bench_secret_command,
}
use presence_platform.Device.Commit.{IsIdentity, store-IsIdentity}

store_bench_cases :
    (a : NvsAnswers) (r : ProvisionResult) (nvs : DeviceNvs)
    → (((store_bench_secret a true r nvs).0 ≡ true)
        × IsIdentity r (store_bench_secret a true r nvs).1)
      ⊎ (((store_bench_secret a true r nvs).0 ≡ false)
          × ((store_bench_secret a true r nvs).1.device_secret ≡ none))
unfolding store_bench_secret remove_secret
store_bench_cases a r nvs = elim (Bool-cases (store_device_identity a r nvs).0) [
  | inl h ↦ let identity = store-IsIdentity a r nvs h in ground (arith, identity)
  | inr h ↦ inr (ground arith, ground arith)
]

-- The identity of a line.
abbrev pub identity_of : Bytes → Bytes → ℕ → ProvisionResult
identity_of id secret version = record {
  device_id = id;
  secret = secret;
  key_version = version;
  server_time_ms = 0;
}

-- An accepted line changes nothing, or leaves the identity of the line and restarts, or leaves no
-- device secret.
pub bench_secret_command_whole :
    (a : NvsAnswers) (line id secret : Bytes) (version : ℕ) (nvs : DeviceNvs)
    → parse_bench_secret_command line ≡ BenchSecretParse.ok id secret version
    → let (answer, after) = bench_secret_command a true line nvs in
      ((answer ≡ BenchAnswer.uncleared) × (after ≡ nvs))
      ⊎ ((answer ≡ BenchAnswer.restarts) × IsIdentity (identity_of id secret version) after)
      ⊎ ((answer ≡ BenchAnswer.unstored) × (after.device_secret ≡ none))
unfolding bench_secret_command
bench_secret_command_whole a line id secret version nvs h =
    let cleared : DeviceNvs = record nvs { device_secret = none } in
    let stored = store_bench_cases a (identity_of id secret version) cleared in
    rw (bench_secret_command, h) (ground (arith, stored))
