-- ===== src/Ota/Image/Chunks.antt =====
-- The verdict on an image does not depend on how it is cut into chunks.
use presence_platform.Prelude.{
  ℕ, ◌+◌, ◌<◌, ◌≡◌, refl, sym, subst, ap, ◌∙◌, Bool, true, false, not, ◌||◌, List, [], ◌∷◌, ◌++◌,
  append-nil, append_assoc, Bytes, length, length-append, take, ◌==◌, ==_ne, Bool-cases, inl, inr,
  if◌then◌else◌, to_size, size_mod, arith,
}
use presence_platform.Ota.Image.{
  Crypto, OtaVerdict, ok, no_key, empty_image, size_mismatch, bad_version, bad_signature,
  is_unusable_key, version_ok, ota_signed_preamble, open_stream, feed_stream, finish_stream,
  ImageVerifier, open_verifier, feed, decide, finish,
}

-- Incremental hashing: what is hashed in two pieces is hashed as one.
pub record IsStreaming (C : Crypto) : Type 0 where
  pub update-update :
      (c : C.Ctx) (a b : Bytes)
      → C.sha512_update (C.sha512_update c a) b ≡ C.sha512_update c (a ++ b)

unfoldable pub joined : List Bytes → Bytes
joined [] = []
joined (c ∷ cs) = c ++ joined cs

module _ (C : Crypto) where
  unfoldable pub feed_all : List Bytes → ImageVerifier C → ImageVerifier C
  feed_all [] v = v
  feed_all (c ∷ cs) v = feed_all cs (feed C c v)

  -- The signature equation on the whole message: the key, the preamble and the image.
  abbrev pub signed : Bytes → Bytes → Bytes → ℕ → Bytes → Bool
  signed key sig version size image = C.check_equation sig key (
      C.eddsa_reduce (
        C.sha512_final (
          C.sha512_update C.sha512_init
            (take 32 sig ++ (key ++ (ota_signed_preamble version size ++ image))))))

  -- What the verdict on a whole image should be.
  unfoldable pub image_verdict : Bytes → Bytes → Bytes → ℕ → Bytes → OtaVerdict
  image_verdict key sig version size image =
      if is_unusable_key key
      then no_key
      else if not (version_ok version)
      then bad_version
      else if size == 0 || length image == 0
      then empty_image
      else if not (length image == size)
      then size_mismatch
      else if signed key sig version size image
      then ok
      else bad_signature

  -- What is hashed before the image.
  abbrev pub lead : Bytes → Bytes → Bytes → ℕ → Bytes
  lead key sig version size =
      take 32 sig ++ (key ++ (if version_ok version then ota_signed_preamble version size else []))

  -- The verifier that has taken `image`.
  record HasTaken (key sig version : Bytes) (size : ℕ) (image : Bytes) (v : ImageVerifier C)
      : Type 0 where
    key_eq : v.stream.key ≡ key
    sig_eq : v.stream.sig ≡ sig
    ctx_eq : v.stream.ctx ≡ C.sha512_update C.sha512_init (lead key sig version size ++ image)
    stream_open : v.stream.finished ≡ false
    expected_eq : v.expected ≡ size
    unusable_eq : v.unusable ≡ is_unusable_key key
    versioned_eq : v.versioned ≡ version_ok version
    seen_eq : v.seen ≡ length image
    still_open : v.finished ≡ false

  feed_none : (v : ImageVerifier C) → feed C [] v ≡ v
  unfolding feed
  feed_none v = ground arith

  -- The verifier and its stream after a chunk that is not empty.
  abbrev fed : ℕ → Bytes → ImageVerifier C → ImageVerifier C
  fed c chunk v = record v {
    seen = to_size (v.seen + length (c ∷ chunk));
    stream = record v.stream { ctx = C.sha512_update v.stream.ctx (c ∷ chunk) };
  }

  feed_some :
      (c : ℕ) (chunk : Bytes) (v : ImageVerifier C)
      → v.finished ≡ false
      → v.stream.finished ≡ false
      → feed C (c ∷ chunk) v ≡ fed c chunk v
  unfolding feed feed_stream
  feed_some c chunk v h k = ground arith

  module _ (R : IsStreaming C) (key sig version : Bytes) (size : ℕ) where
    feed-HasTaken :
        (image chunk : Bytes) (v : ImageVerifier C)
        → length image + length chunk < size_mod
        → HasTaken key sig version size image v
        → HasTaken key sig version size (image ++ chunk) (feed C chunk v)
    feed-HasTaken image [] v h t =
        subst (λ x. HasTaken key sig version size x (feed C [] v)) (sym (append-nil image))
          (subst (HasTaken key sig version size image) (sym (feed_none v)) t)
    feed-HasTaken image (c ∷ chunk) v h t =
        subst (HasTaken key sig version size (image ++ c ∷ chunk))
          (sym (feed_some c chunk v t.still_open t.stream_open))
          (record {
            key_eq = t.key_eq;
            sig_eq = t.sig_eq;
            ctx_eq =
                ap (λ x. C.sha512_update x (c ∷ chunk)) t.ctx_eq
                ∙ R.update-update C.sha512_init (lead key sig version size ++ image) (c ∷ chunk)
                ∙ ap (C.sha512_update C.sha512_init)
                    (append_assoc (lead key sig version size) image (c ∷ chunk));
            stream_open = t.stream_open;
            expected_eq = t.expected_eq;
            unusable_eq = t.unusable_eq;
            versioned_eq = t.versioned_eq;
            seen_eq = omega (arith, t.seen_eq, length-append image (c ∷ chunk));
            still_open = t.still_open;
          })

    feed_all-HasTaken :
        (chunks : List Bytes) (image : Bytes) (v : ImageVerifier C)
        → length image + length (joined chunks) < size_mod
        → HasTaken key sig version size image v
        → HasTaken key sig version size (image ++ joined chunks) (feed_all chunks v)
    unfolding feed_all joined
    feed_all-HasTaken [] image v h t =
        subst (λ x. HasTaken key sig version size x v) (sym (append-nil image)) t
    feed_all-HasTaken (c ∷ cs) image v h t =
        let whole = length-append c (joined cs) in
        let first = feed-HasTaken image c v (omega (arith, whole)) t in
        subst (λ x. HasTaken key sig version size x (feed_all cs (feed C c v)))
          (append_assoc image c (joined cs))
          (feed_all-HasTaken cs (image ++ c) (feed C c v)
            (omega (arith, whole, length-append image c)) first)

    preamble_some : (length (ota_signed_preamble version size) == 0) ≡ false
    unfolding ota_signed_preamble
    preamble_some = ==_ne (length (ota_signed_preamble version size)) 0 (omega arith)

    open_ctx :
        (open_verifier C key sig version size).stream.ctx
        ≡ C.sha512_update C.sha512_init (lead key sig version size ++ [])
    unfolding open_verifier open_stream feed_stream
    open_ctx =
        let r = take 32 sig in
        let both = R.update-update C.sha512_init r key in
        elim (Bool-cases (version_ok version)) [
          | inl h ↦
              let pre = ota_signed_preamble version size in
              rw (h, preamble_some)
                (ap (λ x. C.sha512_update x pre) both
                  ∙ R.update-update C.sha512_init (r ++ key) pre
                  ∙ ap (C.sha512_update C.sha512_init)
                      (append_assoc r key pre ∙ sym (append-nil (r ++ (key ++ pre)))))
          | inr h ↦ rw h (
              both
              ∙ ap (λ x. C.sha512_update C.sha512_init (r ++ x)) (sym (append-nil key))
              ∙ ap (C.sha512_update C.sha512_init) (sym (append-nil (r ++ (key ++ [])))))
        ]

    open-HasTaken : HasTaken key sig version size [] (open_verifier C key sig version size)
    unfolding open_verifier open_stream feed_stream
    open-HasTaken = record {
      key_eq = ground (arith, preamble_some);
      sig_eq = ground (arith, preamble_some);
      ctx_eq = open_ctx;
      stream_open = ground (arith, preamble_some);
      expected_eq = refl;
      unusable_eq = refl;
      versioned_eq = refl;
      seen_eq = refl;
      still_open = refl;
    }

  lead-message :
      (key sig version : Bytes) (size : ℕ) (image : Bytes)
      → version_ok version ≡ true
      → lead key sig version size ++ image
        ≡ take 32 sig ++ (key ++ (ota_signed_preamble version size ++ image))
  lead-message key sig version size image h =
      let pre = ota_signed_preamble version size in
      rw h (
        append_assoc (take 32 sig) (key ++ pre) image
        ∙ ap (λ x. take 32 sig ++ x) (append_assoc key pre image))

  equation :
      {key sig version : Bytes} {size : ℕ} {image : Bytes} {v : ImageVerifier C}
      → HasTaken key sig version size image v
      → version_ok version ≡ true
      → C.check_equation v.stream.sig v.stream.key (C.eddsa_reduce (C.sha512_final v.stream.ctx))
        ≡ signed key sig version size image
  equation {key} {sig} {version} {size} {image} t h =
      cc (t.key_eq, t.sig_eq, t.ctx_eq, lead-message key sig version size image h)

  decided :
      {key sig version : Bytes} {size : ℕ} {image : Bytes} {v : ImageVerifier C}
      → HasTaken key sig version size image v
      → (finish C v).0 ≡ image_verdict key sig version size image
  unfolding finish decide finish_stream image_verdict
  decided {key} {sig} {version} {size} {image} {v} t = ground (
    arith,
    t.key_eq,
    t.stream_open,
    t.expected_eq,
    t.unusable_eq,
    t.versioned_eq,
    t.seen_eq,
    t.still_open,
    equation t,
  )

-- For SHA-512 that hashes two pieces as it hashes them joined, however an image below 2^32
-- bytes is cut into chunks, the verdict of the verifier is that on the whole image: an unusable
-- key, a version that does not parse, an empty image and a wrong size are refused in this
-- order, and else the signature equation over the key, the preamble and the image decides; a
-- second `finish` is a bad signature.
pub chunks_verdict :
    (C : Crypto) (R : IsStreaming C) (key sig version : Bytes) (size : ℕ) (chunks : List Bytes)
    → length (joined chunks) < size_mod
    → let v = feed_all C chunks (open_verifier C key sig version size) in
      ((finish C v).0 ≡ image_verdict C key sig version size (joined chunks))
      × ((finish C (finish C v).1).0 ≡ bad_signature)
unfolding finish
chunks_verdict C R key sig version size chunks h = (
  decided C (
      feed_all-HasTaken C R key sig version size chunks [] (open_verifier C key sig version size)
        (omega arith) (open-HasTaken C R key sig version size)),
  ground arith,
)
