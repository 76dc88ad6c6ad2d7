-- ===== src/Update/ReadBack.antt =====
-- firmware/src/main.cpp: what the read-back of `applyOta` has fed to the digest and the verifier.
use presence_platform.Prelude.{
  ℕ, zero, suc, ◌+◌, ◌-◌, ◌*◌, ◌≤◌, ◌<◌, ◌≡◌, refl, sym, subst, ap, ◌∙◌, true, Option, some, List,
  [], ◌∷◌, ◌++◌, append-nil, Bytes, length, size_mod, arith, Option-cases, inl, inr,
}
use mathlib.Core.Option.{some-injective}
use native.Mathlib.Decide.{dec_lt}
use presence_platform.Ota.Image.{Crypto, ImageVerifier, feed}
use presence_platform.Ota.Image.Chunks.{joined, feed_all}
use presence_platform.Update.{Sha256, Partitions, ota_chunk, next_chunk, read_back}

-- What ESP-IDF documents of a partition: adjacent reads join, a read has the length asked for, the
-- boot partition is kept apart from the slots.
pub record IsPartitioned (F : Partitions) : Type 0 where
  pub read_join :
      (f : F.Flash) (s : F.Slot) (o m n : ℕ) (a b : Bytes)
      → F.read f s o m ≡ some a
      → F.read f s (o + m) n ≡ some b
      → F.read f s o (m + n) ≡ some (a ++ b)
  pub length-read :
      (f : F.Flash) (s : F.Slot) (o n : ℕ) (b : Bytes) → F.read f s o n ≡ some b → length b ≡ n
  pub boot-set_boot :
      (f : F.Flash) (s : F.Slot) → (F.set_boot f s).0 ≡ true → F.boot (F.set_boot f s).1 ≡ some s
  pub read-set_boot :
      (f : F.Flash) (s t : F.Slot) (o n : ℕ) → F.read (F.set_boot f s).1 t o n ≡ F.read f t o n

-- Incremental SHA-256.
pub record IsIncremental (H : Sha256) : Type 0 where
  pub update_twice : (c : H.Ctx) (a b : Bytes) → H.update (H.update c a) b ≡ H.update c (a ++ b)

module _ (C : Crypto) (H : Sha256) (F : Partitions) where
  -- What a successful read-back of the range from `off` has fed to the digest and the verifier.
  pub record IsRead (f : F.Flash) (slot : F.Slot) (size off : ℕ) (sha : H.Ctx) (v : ImageVerifier C)
      (sha' : H.Ctx) (v' : ImageVerifier C) : Type 0 where
    pub chunks : List Bytes
    pub content : F.read f slot off (size - off) ≡ some (joined chunks)
    pub hashed : sha' ≡ H.update sha (joined chunks)
    pub verified : v' ≡ feed_all C chunks v

  module _ (P : IsPartitioned F) (N : IsIncremental H) (f : F.Flash) (slot : F.Slot) (size : ℕ)
      (small : size + ota_chunk < size_mod) where
    read_back_end :
        (n off : ℕ) (sha : H.Ctx) (v : ImageVerifier C)
        → size ≤ off
        → read_back C H F n f slot size off sha v ≡ some (sha, v)
    unfolding read_back
    read_back_end zero off sha v h = refl
    read_back_end (suc n) off sha v h = ground arith

    read_back_step :
        (n off : ℕ) (sha : H.Ctx) (v : ImageVerifier C) (r : H.Ctx × ImageVerifier C)
        → off < size
        → read_back C H F (suc n) f slot size off sha v ≡ some r
        → (chunk : Bytes) × (F.read f slot off (next_chunk size off) ≡ some chunk)
          × (read_back C H F n f slot size (off + ota_chunk) (H.update sha chunk) (feed C chunk v)
              ≡ some r)
    unfolding read_back
    read_back_step n off sha v r h e =
        elim (Option-cases (F.read f slot off (next_chunk size off))) [
          | inl q ↦ absurd (ground arith)
          | inr (chunk, q) ↦ (chunk, q, ground arith)
        ]

    next_chunk_last : (off : ℕ) → size ≤ off + ota_chunk → next_chunk size off ≡ size - off
    unfolding next_chunk
    next_chunk_last off h = ground arith

    next_chunk_full : (off : ℕ) → off + ota_chunk < size → next_chunk size off ≡ ota_chunk
    unfolding next_chunk
    next_chunk_full off h = ground arith

    read_last :
        (off : ℕ) (sha : H.Ctx) (v : ImageVerifier C) (chunk : Bytes)
        → size ≤ off + ota_chunk
        → F.read f slot off (next_chunk size off) ≡ some chunk
        → IsRead f slot size off sha v (H.update sha chunk) (feed C chunk v)
    unfolding joined feed_all
    read_last off sha v chunk h q = record {
      chunks = chunk ∷ [];
      content =
          ap (F.read f slot off) (sym (next_chunk_last off h))
          ∙ q
          ∙ ap some (sym (append-nil chunk));
      hashed = ap (H.update sha) (sym (append-nil chunk));
      verified = refl;
    }

    read_more :
        (off : ℕ) (sha : H.Ctx) (v : ImageVerifier C) (chunk : Bytes) (sha' : H.Ctx)
        (v' : ImageVerifier C)
        → off + ota_chunk < size
        → F.read f slot off (next_chunk size off) ≡ some chunk
        → IsRead f slot size (off + ota_chunk) (H.update sha chunk) (feed C chunk v) sha' v'
        → IsRead f slot size off sha v sha' v'
    unfolding joined feed_all
    read_more off sha v chunk sha' v' h q r = record {
      chunks = chunk ∷ r.chunks;
      content =
          ap (F.read f slot off) (omega arith)
          ∙ P.read_join f slot off ota_chunk (size - (off + ota_chunk)) chunk (joined r.chunks)
              (ap (F.read f slot off) (sym (next_chunk_full off h)) ∙ q) r.content;
      hashed = r.hashed ∙ N.update_twice sha chunk (joined r.chunks);
      verified = r.verified;
    }

    pub read_back-IsRead :
        (n off : ℕ) (sha : H.Ctx) (v : ImageVerifier C) (sha' : H.Ctx) (v' : ImageVerifier C)
        → off < size
        → size ≤ off + n * ota_chunk
        → read_back C H F n f slot size off sha v ≡ some (sha', v')
        → IsRead f slot size off sha v sha' v'
    read_back-IsRead zero off sha v sha' v' lo hi e = absurd (omega arith)
    read_back-IsRead (suc n) off sha v sha' v' lo hi e =
        let (chunk, q, rest) = read_back_step n off sha v (sha', v') lo e in
        elim (dec_lt (off + ota_chunk) size) [
          | yes h ↦ read_more off sha v chunk sha' v' h q (
              read_back-IsRead n (off + ota_chunk) (H.update sha chunk) (feed C chunk v) sha' v' h
                (omega arith) rest)
          | no h ↦
              ended
                (sym (
                    read_back_end n (off + ota_chunk) (H.update sha chunk) (feed C chunk v)
                      (omega arith))
                  ∙ rest)
                (read_last off sha v chunk (omega arith) q)
        ]
      where
        ended :
            {s t : H.Ctx} {w x : ImageVerifier C}
            → ◌≡◌ {A = Option (H.Ctx × ImageVerifier C)} (some (s, w)) (some (t, x))
            → IsRead f slot size off sha v s w
            → IsRead f slot size off sha v t x
        ended h r = subst (λ p. IsRead f slot size off sha v p.0 p.1) (some-injective _ _ h) r
