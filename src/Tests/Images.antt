-- ===== src/Tests/Images.antt =====
-- An image in three chunks, one of them empty.
use presence_platform.Prelude.{
  ◌<◌, ◌≡◌, List, [], ◌∷◌, ◌++◌, append_assoc, Bytes, bytes_eq, codes, length, replicate, size_mod,
  arith,
}
use presence_platform.Ota.Image.{Crypto, bad_signature, open_verifier, finish}
use presence_platform.Ota.Image.Chunks.{
  IsStreaming, joined, feed_all, image_verdict, chunks_verdict,
}

-- The hash of a message is the message, and a signature is right if it and the key are that message.
abbrev plain_crypto : Crypto
plain_crypto = record {
  Ctx = Bytes;
  sha512_init = [];
  sha512_update = λ c b. c ++ b;
  sha512_final = λ c. c;
  eddsa_reduce = λ h. h;
  check_equation = λ sig key h. bytes_eq (sig ++ key) h;
}

plain_crypto-IsStreaming : IsStreaming plain_crypto
plain_crypto-IsStreaming = record { update-update = λ c a b. append_assoc c a b }

abbrev chunks : List Bytes
chunks = (1 ∷ 2 ∷ []) ∷ [] ∷ (3 ∷ []) ∷ []

short : length (joined chunks) < size_mod
unfolding joined
short = omega arith

chunks_verdict_example :
    let v =
      feed_all plain_crypto chunks
        (open_verifier plain_crypto (replicate 32 7) (replicate 64 8) (codes "1.2.3") 3) in
    ((finish plain_crypto v).0
      ≡ image_verdict plain_crypto
          (replicate 32 7)
          (replicate 64 8)
          (codes "1.2.3")
          3
          (joined chunks))
    × ((finish plain_crypto (finish plain_crypto v).1).0 ≡ bad_signature)
chunks_verdict_example =
    chunks_verdict plain_crypto plain_crypto-IsStreaming (replicate 32 7) (replicate 64 8)
      (codes "1.2.3") 3 chunks short
