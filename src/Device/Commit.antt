-- ===== src/Device/Commit.antt =====
-- firmware/src/main.cpp: the secret is the commit of the identity, and the token goes behind it.
use presence_platform.Prelude.{ℕ, zero, suc, ◌≡◌, ◌⊎◌, inl, Bool, true, false, none, some, arith}
use presence_platform.Provision.Reply.{
  ProvisionStatus, classify_provision_status, ProvisionResult, parse_provision_response,
}
use presence_platform.Net.{Reply}
use presence_platform.Device.{
  DeviceNvs, NvsAnswers, put_id, put_version, put_secret, put_two, put_three, identity_writes,
  store_device_identity, Device,
}

-- The identity in NVS is that of the reply.
pub record IsIdentity (r : ProvisionResult) (nvs : DeviceNvs) : Type 0 where
  pub id_stored : nvs.device_id ≡ some r.device_id
  pub version_stored : nvs.key_version ≡ some r.key_version
  pub secret_stored : nvs.device_secret ≡ some r.secret

put_three_commits :
    (a : NvsAnswers) (r : ProvisionResult) (nvs : DeviceNvs)
    → nvs.device_secret ≡ none
    → ((put_three a r nvs).device_secret ≡ none) ⊎ IsIdentity r (put_three a r nvs)
unfolding put_three put_two put_id put_version put_secret
put_three_commits a r nvs h = ground arith

-- If NVS holds no device secret, then behind any number of the writes of an identity, whichever
-- of them NVS takes, it holds no device secret or the id, the key version and the secret of
-- that identity.
pub identity_writes_commit :
    (n : ℕ) (a : NvsAnswers) (r : ProvisionResult) (nvs : DeviceNvs)
    → nvs.device_secret ≡ none
    → ((identity_writes n a r nvs).device_secret ≡ none) ⊎ IsIdentity r (identity_writes n a r nvs)
unfolding identity_writes put_two put_id put_version
identity_writes_commit zero a r nvs h = inl h
identity_writes_commit (suc zero) a r nvs h = inl (ground arith)
identity_writes_commit (suc (suc zero)) a r nvs h = inl (ground arith)
identity_writes_commit (suc (suc (suc n))) a r nvs h = put_three_commits a r nvs h

pub store-IsIdentity :
    (a : NvsAnswers) (r : ProvisionResult) (nvs : DeviceNvs)
    → (store_device_identity a r nvs).0 ≡ true
    → IsIdentity r (store_device_identity a r nvs).1
unfolding store_device_identity put_three put_two put_id put_version put_secret
store-IsIdentity a r nvs h = ground arith

-- What an attempt at `/v1/device/provision` that has succeeded leaves.
pub record IsProvisioned (a : NvsAnswers) (reply : Reply) (d : Device) : Type 0 where
  pub result : ProvisionResult
  pub accepted : classify_provision_status reply.code ≡ ProvisionStatus.ok
  pub parsed : parse_provision_response reply.response ≡ some result
  pub stored : IsIdentity result d.nvs
  pub in_use : d.secret ≡ result.secret
  pub provisioned : d.status.provisioned ≡ true

-- What an attempt that has failed leaves: the secret in use and the status as they were, and the
-- token too, unless the gateway refused it.
pub record IsUnprovisioned (reply : Reply) (before d : Device) : Type 0 where
  pub secret_same : d.secret ≡ before.secret
  pub status_same : d.status ≡ before.status
  pub token_kept :
      (d.nvs.token ≡ before.nvs.token)
      ⊎ (classify_provision_status reply.code ≡ ProvisionStatus.refused)

-- How an attempt ends.
abbrev pub Outcome : NvsAnswers → Reply → Device → Bool × Device → Type 0
Outcome a reply before (done, after) =
    ((done ≡ true) × IsProvisioned a reply after)
    ⊎ ((done ≡ false) × IsUnprovisioned reply before after)
