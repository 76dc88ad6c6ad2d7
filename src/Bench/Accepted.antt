-- ===== src/Bench/Accepted.antt =====
-- Which lines of the bench store a secret.
use presence_platform.Prelude.{
  take-append-drop, ℕ, ◌^◌, ◌≤◌, ◌<◌, ◌≡◌, ◌⊎◌, ◌++◌, refl, ap, ap₂, subst, bytes_eq_sound, sym,
  ◌∙◌, true, Option, none, some, List, [], ◌∷◌, Bytes, codes, length, take, drop, Option-cases, inl,
  inr, IsByte, All, arith,
}
use presence_platform.Hex.{to_hex, decode_hex_exact}
use presence_platform.Hex.Decoding.{lower, lower_hex, decode_hex_iff}
use presence_platform.Provision.Reply.{is_uuid_text}
use presence_platform.Provision.Reply.Uuid.{IsUuid, is_uuid_text_iff}
use presence_platform.Bench.Words.{
  HasWords, IsNumber, ends_word_cases, key_version-IsNumber, words_of-HasWords,
}
use presence_platform.Bench.{
  ok, key_version, lower_id, lower_id_digit, with_version, with_secret, check_fields, words_of,
  read_fields, parse_bench_secret_command,
}

-- What is stored for two fields and a key version.
Stores : Bytes → Bytes → Option ℕ → Bytes → Bytes → ℕ → Type 0
Stores f g kv id secret version =
    IsUuid f
    × (id ≡ lower f)
    × (length secret ≡ 32)
    × All IsByte secret
    × (lower g ≡ to_hex secret)
    × (kv ≡ some version)

lower_id_lem : (f : Bytes) → lower_id f ≡ lower f
unfolding lower_id lower lower_id_digit lower_hex
lower_id_lem [] = refl
lower_id_lem (c ∷ f) = ap₂ ◌∷◌ (ground arith) (lower_id_lem f)

with_version-ok :
    (f s : Bytes) (kv : Option ℕ) (id secret : Bytes) (v : ℕ)
    → with_version f s kv ≡ ok id secret v
    → (lower_id f ≡ id) × (s ≡ secret) × (kv ≡ some v)
unfolding with_version
with_version-ok f s none id secret v h = absurd (ground arith)
with_version-ok f s (some w) id secret v h = (ground arith, ground arith, ground arith)

check-Stores :
    (f g : Bytes) (kv : Option ℕ) (id secret : Bytes) (v : ℕ)
    → check_fields f g kv ≡ ok id secret v
    → Stores f g kv id secret v
unfolding check_fields Stores with_secret
check-Stores f g kv id secret v h = elim (Option-cases (decode_hex_exact g 32)) [
  | inl e ↦ absurd (ground arith)
  | inr (s, e) ↦
      let uuid : is_uuid_text f ≡ true = ground arith in
      let made : with_version f s kv ≡ ok id secret v = ground arith in
      let (name, same, version) = with_version-ok f s kv id secret v made in
      let (size, (small, digits)) =
        (decode_hex_iff g secret 32 (omega arith)).0 (e ∙ ap some same) in
      ((is_uuid_text_iff f).0 uuid, sym name ∙ lower_id_lem f, size, small, digits, version)
]

-- The words of an accepted line, and the key version that they give.
abbrev pub Words : Bytes → Bytes → Bytes → ℕ → Type 0
Words t f g v =
    (HasWords t (f ∷ g ∷ []) × (v ≡ 1)) ⊎ ((w : Bytes) × HasWords t (f ∷ g ∷ w ∷ []) × IsNumber w v)

Accepts : Bytes → List Bytes → Bytes → Bytes → ℕ → Type 0
Accepts t words id secret v =
    (f : Bytes) × (g : Bytes) × IsUuid f
    × (id ≡ lower f)
    × (length secret ≡ 32)
    × All IsByte secret
    × (lower g ≡ to_hex secret)
    × (1 ≤ v)
    × (v < 2 ^ 31)
    × Words t f g v

read_fields-Accepts :
    (t : Bytes) (words : List Bytes) (id secret : Bytes) (v : ℕ)
    → words_of t ≡ words
    → read_fields words ≡ ok id secret v
    → Accepts t words id secret v
unfolding read_fields Accepts Stores
read_fields-Accepts t [] id secret v k h = absurd (ground arith)
read_fields-Accepts t (f ∷ []) id secret v k h = absurd (ground arith)
read_fields-Accepts t (f ∷ (g ∷ [])) id secret v k h =
    let (uuid, name, size, small, digits, version) = check-Stores f g (some 1) id secret v h in
    let one : 1 ≡ v = ground arith in
    (
      f,
      g,
      uuid,
      name,
      size,
      small,
      digits,
      omega (arith, one),
      omega (arith, one),
      inl (words_of-HasWords t (f ∷ g ∷ []) k, sym one),
    )
read_fields-Accepts t (f ∷ (g ∷ (w ∷ []))) id secret v k h =
    let (uuid, name, size, small, digits, version) =
      check-Stores f g (key_version w) id secret v h in
    let number = key_version-IsNumber w v version in
    let (_, _, _, low, high) = number in
    (
      f,
      g,
      uuid,
      name,
      size,
      small,
      digits,
      low,
      high,
      inr (w, words_of-HasWords t (f ∷ g ∷ w ∷ []) k, number),
    )
read_fields-Accepts t (f ∷ (g ∷ (w ∷ (x ∷ more)))) id secret v k h = absurd (ground arith)

-- A line that `parseBenchSecretCommand` accepts is `BENCH-SECRET`, a space and a text with
-- exactly two or three words between its spaces: a UUID, which it returns in lower case, the 64
-- hex digits, of either case, of the 32 bytes that it returns, and the key version, a decimal
-- number of 1 to 2^31 - 1 without leading zeros, which is 1 where the third word is missing.
pub accepted_command :
    (line id secret : Bytes) (v : ℕ)
    → parse_bench_secret_command line ≡ ok id secret v
    → (rest : Bytes) × (line ≡ codes "BENCH-SECRET" ++ (b' ' ∷ rest))
      × ((f : Bytes) × (g : Bytes) × IsUuid f
          × (id ≡ lower f)
          × (length secret ≡ 32)
          × All IsByte secret
          × (lower g ≡ to_hex secret)
          × (1 ≤ v)
          × (v < 2 ^ 31)
          × Words (b' ' ∷ rest) f g v)
unfolding parse_bench_secret_command Accepts
accepted_command line id secret v h =
    let fields : read_fields (words_of (drop 12 line)) ≡ ok id secret v = ground arith in
    let verb_first : take 12 line ≡ codes "BENCH-SECRET" = bytes_eq_sound _ _ (ground arith) in
    let split : line ≡ codes "BENCH-SECRET" ++ drop 12 line =
      sym (take-append-drop 12 line) ∙ ap (λ s. s ++ drop 12 line) verb_first in
    elim (ends_word_cases (drop 12 line) (ground arith)) [
      | inl e ↦
          absurd (
            no_fields id secret v (subst (λ t. read_fields (words_of t) ≡ ok id secret v) e fields))
      | inr (t, e) ↦ (
        t,
        split ∙ ap (λ s. codes "BENCH-SECRET" ++ s) e,
        subst (λ s. Accepts s (words_of s) id secret v) e
            (read_fields-Accepts (drop 12 line) (words_of (drop 12 line)) id secret v refl fields),
      )
    ]
  where
    no_fields : (id secret : Bytes) (v : ℕ) → ¬ (read_fields (words_of []) ≡ ok id secret v)
    no_fields id secret v k = unfold read_fields in unfold words_of in ground arith
