-- ===== src/Ota/Image.antt =====
-- firmware/src/ota_verify.h: `isUnusableKey`, `Ed25519Stream` and `ImageVerifier`. The arithmetic of
-- the vendored Monocypher is the parameter `Crypto`.
pub mod Chunks
use presence_platform.Prelude.{
  ℕ, zero, suc, ◌+◌, ◌%◌, ◌*◌, Bool, true, false, not, ◌&&◌, ◌||◌, Option, none, some, List, [],
  ◌∷◌, ◌++◌, Bytes, bytes_eq, codes, length, take, replicate, ◌==◌, if◌then◌else◌, to_size,
}
use presence_platform.Decimal.{json_int}
use presence_platform.Ota.Version.{parse_ota_version}

-- `crypto_sha512_*`, `crypto_eddsa_reduce`, and `crypto_eddsa_check_equation(...) == 0`.
pub record Crypto : Type 1 where
  pub Ctx : Type 0
  pub sha512_init : Ctx
  pub sha512_update : Ctx → Bytes → Ctx
  pub sha512_final : Ctx → Bytes
  pub eddsa_reduce : Bytes → Bytes
  pub check_equation : Bytes → Bytes → Bytes → Bool

-- The bytes or together to 0 if each of them is 0.
unfoldable pub is_sentinel_key : Bytes → Bool
is_sentinel_key [] = true
is_sentinel_key (b ∷ bs) = b == 0 && is_sentinel_key bs

abbrev pub small_order_y : List Bytes
small_order_y =
    replicate 32 0
    ∷ (0x01 ∷ replicate 31 0)
    ∷ (0x26 ∷ 0xe8 ∷ 0x95 ∷ 0x8f ∷ 0xc2 ∷ 0xb2 ∷ 0x27 ∷ 0xb0 ∷ 0x45 ∷ 0xc3 ∷ 0xf4 ∷ 0x89 ∷ 0xf2
        ∷ 0xef ∷ 0x98 ∷ 0xf0 ∷ 0xd5 ∷ 0xdf ∷ 0xac ∷ 0x05 ∷ 0xd3 ∷ 0xc6 ∷ 0x33 ∷ 0x39 ∷ 0xb1 ∷ 0x38
        ∷ 0x02 ∷ 0x88 ∷ 0x6d ∷ 0x53 ∷ 0xfc ∷ 0x05 ∷ [])
    ∷ (0xc7 ∷ 0x17 ∷ 0x6a ∷ 0x70 ∷ 0x3d ∷ 0x4d ∷ 0xd8 ∷ 0x4f ∷ 0xba ∷ 0x3c ∷ 0x0b ∷ 0x76 ∷ 0x0d
        ∷ 0x10 ∷ 0x67 ∷ 0x0f ∷ 0x2a ∷ 0x20 ∷ 0x53 ∷ 0xfa ∷ 0x2c ∷ 0x39 ∷ 0xcc ∷ 0xc6 ∷ 0x4e ∷ 0xc7
        ∷ 0xfd ∷ 0x77 ∷ 0x92 ∷ 0xac ∷ 0x03 ∷ 0x7a ∷ [])
    ∷ (0xec ∷ (replicate 30 0xff ++ 0x7f ∷ []))
    ∷ (0xed ∷ (replicate 30 0xff ++ 0x7f ∷ []))
    ∷ (0xee ∷ (replicate 30 0xff ++ 0x7f ∷ []))
    ∷ []

-- `y[n] &= 0x7f`
unfoldable pub clear_sign : ℕ → Bytes → Bytes
clear_sign n [] = []
clear_sign zero (b ∷ bs) = (b % 0x80) ∷ bs
clear_sign (suc n) (b ∷ bs) = b ∷ clear_sign n bs

unfoldable pub is_one_of : Bytes → List Bytes → Bool
is_one_of y [] = false
is_one_of y (bad ∷ rest) = bytes_eq y bad || is_one_of y rest

unfoldable pub is_small_order_key : Bytes → Bool
is_small_order_key key = is_one_of (clear_sign 31 key) small_order_y

unfoldable pub is_unusable_key : Bytes → Bool
is_unusable_key key = is_sentinel_key key || is_small_order_key key

unfoldable pub ota_signed_preamble : Bytes → ℕ → Bytes
ota_signed_preamble version size =
    codes "presence-ota-image/v1\n"
    ++ (codes "version=" ++ (version ++ (codes "\nsize=" ++ (json_int size ++ codes "\n"))))

pub data OtaVerdict : Type 0 where
  ok no_key empty_image size_mismatch bad_version bad_signature : OtaVerdict

-- `parseOtaVersion(version, nullptr)`
unfoldable pub version_ok : Bytes → Bool
version_ok version = elim (parse_ota_version version) [ none ↦ false | some code ↦ true ]

module _ (C : Crypto) where
  open C use {Ctx, sha512_init, sha512_update, sha512_final, eddsa_reduce, check_equation}

  pub record Ed25519Stream : Type 0 where
    pub key : Bytes
    pub sig : Bytes
    pub ctx : Ctx
    pub finished : Bool

  unfoldable pub open_stream : Bytes → Bytes → Ed25519Stream
  open_stream public_key signature = record {
    key = public_key;
    sig = signature;
    ctx = sha512_update (sha512_update sha512_init (take 32 signature)) public_key;
    finished = false;
  }

  unfoldable pub feed_stream : Bytes → Ed25519Stream → Ed25519Stream
  feed_stream chunk s =
      if s.finished || length chunk == 0 then s else record s { ctx = sha512_update s.ctx chunk }

  unfoldable pub finish_stream : Ed25519Stream → Bool × Ed25519Stream
  finish_stream s =
      let ended : Ed25519Stream = record s { finished = true } in
      if s.finished
      then (false, s)
      else if is_unusable_key s.key
      then (false, ended)
      else (check_equation s.sig s.key (eddsa_reduce (sha512_final s.ctx)), ended)

  pub record ImageVerifier : Type 0 where
    pub stream : Ed25519Stream
    pub expected : ℕ
    pub unusable : Bool
    pub versioned : Bool
    pub seen : ℕ
    pub finished : Bool

  unfoldable pub open_verifier : Bytes → Bytes → Bytes → ℕ → ImageVerifier
  open_verifier public_key signature version expected_size =
      let s = open_stream public_key signature in
      record {
        stream =
            if version_ok version
            then feed_stream (ota_signed_preamble version expected_size) s
            else s;
        expected = expected_size;
        unusable = is_unusable_key public_key;
        versioned = version_ok version;
        seen = 0;
        finished = false;
      }

  unfoldable pub feed : Bytes → ImageVerifier → ImageVerifier
  feed chunk v =
      if v.finished || length chunk == 0
      then v
      else record v { seen = to_size (v.seen + length chunk); stream = feed_stream chunk v.stream }

  -- The verdict of a verifier that has not finished yet, and its stream then.
  unfoldable pub decide : ImageVerifier → OtaVerdict × Ed25519Stream
  decide v =
      let (good, s) = finish_stream v.stream in
      if v.unusable
      then (no_key, v.stream)
      else if not v.versioned
      then (bad_version, v.stream)
      else if v.expected == 0 || v.seen == 0
      then (empty_image, v.stream)
      else if not (v.seen == v.expected)
      then (size_mismatch, v.stream)
      else (if good then ok else bad_signature, s)

  unfoldable pub finish : ImageVerifier → OtaVerdict × ImageVerifier
  finish v =
      let (result, s) = decide v in
      if v.finished then (bad_signature, v) else (result, record v { finished = true; stream = s })
