-- ===== src/Ota/Guard/Check.antt =====
-- What `check` lets through.
use presence_platform.Prelude.{
  ℕ, ◌<◌, ◌≡◌, ◌≢◌, ◌⊎◌, ◌↔◌, inl, inr, true, false, Bytes, some, arith, bytes_eq, bytes_eq_sound,
  bytes_eq_refl, Option-cases,
}
use presence_platform.Ota.Version.{parse_ota_version}
use presence_platform.Ota.Guard.{OtaGuard, accept, check, check_version, check_parsed}

-- What a candidate must satisfy.
pub record IsNewer (g : OtaGuard) (version sha : Bytes) : Type 0 where
  pub versioned : g.running_ok ≡ true
  pub settled : g.awaiting ≡ false
  pub code : ℕ
  pub parses : parse_ota_version version ≡ some code
  pub above_running : g.running < code
  pub above_floor : g.st.floor < code
  pub not_bad : (g.st.has_bad ≡ false) ⊎ (sha ≢ g.st.bad_sha)

check_version_inv :
    (g : OtaGuard) (cand : ℕ) (sha : Bytes)
    → check_version g cand sha ≡ accept
    → (g.running < cand)
      × (g.st.floor < cand)
      × ((g.st.has_bad ≡ false) ⊎ (bytes_eq sha g.st.bad_sha ≡ false))
unfolding check_version
check_version_inv g cand sha h = ground arith

differs : (a b : Bytes) → bytes_eq a b ≡ false → a ≢ b
differs a b h e = absurd (cc (bytes_eq_refl a, h, e))

not_bad_of :
    (g : OtaGuard) (sha : Bytes)
    → (g.st.has_bad ≡ false) ⊎ (bytes_eq sha g.st.bad_sha ≡ false)
    → (g.st.has_bad ≡ false) ⊎ (sha ≢ g.st.bad_sha)
not_bad_of g sha (inl h) = inl h
not_bad_of g sha (inr h) = inr (differs sha g.st.bad_sha h)

parsed_inv :
    (g : OtaGuard) (version sha : Bytes)
    → check g version sha ≡ accept
    → (g.running_ok ≡ true)
      × (g.awaiting ≡ false)
      × ((cand : ℕ) × (parse_ota_version version ≡ some cand) × (check_version g cand sha ≡ accept))
unfolding check_parsed check
parsed_inv g version sha h = elim (Option-cases (parse_ota_version version)) [
  | inl e ↦ absurd (ground arith)
  | inr (cand, e) ↦ (ground arith, ground arith, (cand, e, ground arith))
]

check_inv :
    (g : OtaGuard) (version sha : Bytes) → check g version sha ≡ accept → IsNewer g version sha
check_inv g version sha h =
    let (ok, settled, (cand, parses, passed)) = parsed_inv g version sha h in
    let (newer, above, fresh) = check_version_inv g cand sha passed in
    record {
      versioned = ok;
      settled = settled;
      code = cand;
      parses = parses;
      above_running = newer;
      above_floor = above;
      not_bad = not_bad_of g sha fresh;
    }

check_intro :
    (g : OtaGuard) (version sha : Bytes) → IsNewer g version sha → check g version sha ≡ accept
unfolding check
check_intro g version sha n = ground (arith, n, n.parses, bytes_eq_sound sha g.st.bad_sha)

-- `check` accepts an image exactly if the running version parsed, the running image awaits no
-- confirmation, the image's version parses and is above both the running version and the floor,
-- and its hash is not that of the image recorded as bad.
pub check-accept :
    (g : OtaGuard) (version sha : Bytes) → (check g version sha ≡ accept) ↔ IsNewer g version sha
check-accept g version sha = (check_inv g version sha, check_intro g version sha)
