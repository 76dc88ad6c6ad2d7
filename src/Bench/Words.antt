-- ===== src/Bench/Words.antt =====
-- firmware/src/bench_secret.h: what the words of a line and a key version are, as texts.
use presence_platform.Prelude.{
  ℕ, suc, ◌+◌, ◌-◌, ◌*◌, ◌^◌, ◌≤◌, ◌<◌, ◌≡◌, ◌≢◌, ◌⊎◌, refl, ap, sym, subst, ◌∙◌, true, false,
  Option, none, some, List, [], ◌∷◌, ◌++◌, Bytes, lacks, length, All, arith, inl, inr, eq_or_ne,
  Bool-cases, ◌==◌,
}
use mathlib.Core.Option.{some-injective}
use native.Mathlib.Nat.{pow-succ', add-mul, mul_assoc, add_assoc}
use presence_platform.Bench.{
  put_char, ends_word, words_of, read_version, starts_with_zero, in_version_range, key_version,
}

abbrev pub Blank : Bytes → Type 0
Blank s = All (λ c. c ≡ b' ') s

-- At least one space.
abbrev pub IsGap : Bytes → Type 0
IsGap s = (0 < length s) × Blank s

abbrev pub IsWord : Bytes → Type 0
IsWord w = (0 < length w) × (lacks b' ' w ≡ true)

-- The first word of a text, what is in front of it and what is behind it.
record FirstWord (t w : Bytes) (ws : List Bytes) : Type 0 where
  gap : Bytes
  rest : Bytes
  split : t ≡ gap ++ (w ++ rest)
  blank : Blank gap
  word : IsWord w
  ended : ends_word rest ≡ true
  others : words_of rest ≡ ws

no_words : (t : Bytes) → words_of t ≡ [] → Blank t
unfolding words_of put_char
no_words [] h = tt
no_words (c ∷ t) h = elim (eq_or_ne c b' ') [
  | inl e ↦ (e, no_words t (ground arith))
  | inr n ↦ absurd (ground arith)
]

skip_space :
    {c : ℕ} {t w : Bytes} {ws : List Bytes} → c ≡ b' ' → FirstWord t w ws → FirstWord (c ∷ t) w ws
skip_space {c} e z = record {
  gap = c ∷ z.gap;
  rest = z.rest;
  split = ap (λ s. c ∷ s) z.split;
  blank = (e, z.blank);
  word = z.word;
  ended = z.ended;
  others = z.others;
}

no_gap : (t gap s : Bytes) → ends_word t ≡ false → t ≡ gap ++ s → Blank gap → gap ≡ []
unfolding ends_word
no_gap t [] s e h b = refl
no_gap t (x ∷ gap) s e h (space, b) =
    let starts : (x == b' ') ≡ false = sym (ap ends_word h) ∙ e in absurd (ground arith)

-- A character in front of a text that begins with a word makes that word longer.
longer_word :
    {c : ℕ} {t u : Bytes} {us : List Bytes}
    → c ≢ b' '
    → ends_word t ≡ false
    → FirstWord t u us
    → FirstWord (c ∷ t) (c ∷ u) us
unfolding lacks
longer_word {c} {t} {u} {us} n e z =
    let bare : z.gap ≡ [] = no_gap t z.gap (u ++ z.rest) e z.split z.blank in
    let apart : lacks b' ' u ≡ true = z.word.1 in
    record {
      gap = [];
      rest = z.rest;
      split = ap (λ s. c ∷ s) (z.split ∙ ap (λ g. g ++ (u ++ z.rest)) bare);
      blank = tt;
      word = (omega arith, ground arith);
      ended = z.ended;
      others = z.others;
    }

one_char :
    {c : ℕ} {t : Bytes} → c ≢ b' ' → ends_word t ≡ true → FirstWord (c ∷ t) (c ∷ []) (words_of t)
unfolding lacks
one_char {c} {t} n e = record {
  gap = [];
  rest = t;
  split = refl;
  blank = tt;
  word = (omega arith, ground arith);
  ended = e;
  others = refl;
}

not_blank : (t : Bytes) → ends_word t ≡ false → ¬ Blank t
unfolding ends_word
not_blank [] e b = ground arith
not_blank (c ∷ t) e (space, b) = ground arith

first_word : (t w : Bytes) (ws : List Bytes) → words_of t ≡ w ∷ ws → FirstWord t w ws
unfolding words_of put_char
first_word [] w ws h = absurd (ground arith)
first_word (c ∷ t) w ws h = elim (eq_or_ne c b' ') [
  | inl e ↦ skip_space e (first_word t w ws (ground arith))
  | inr n ↦ elim (Bool-cases (ends_word t)) [
    | inl e ↦
        let single : c ∷ [] ≡ w = ground arith in
        let same : words_of t ≡ ws = ground arith in
        subst (FirstWord (c ∷ t) w) same
          (subst (λ x. FirstWord (c ∷ t) x (words_of t)) single (one_char n e))
    | inr e ↦ extend (words_of t) n e (λ u us k. first_word t u us k) refl (ground arith)
  ]
]
  where
    extend :
        (us : List Bytes)
        → c ≢ b' '
        → ends_word t ≡ false
        → ((u : Bytes) (r : List Bytes) → words_of t ≡ u ∷ r → FirstWord t u r)
        → words_of t ≡ us
        → put_char c false us ≡ w ∷ ws
        → FirstWord (c ∷ t) w ws
    extend [] n e deeper k p = absurd (not_blank t e (no_words t k))
    extend (u ∷ us) n e deeper k p =
        let first : c ∷ u ≡ w = ground arith in
        let same : us ≡ ws = ground arith in
        subst (FirstWord (c ∷ t) w) same
          (subst (λ x. FirstWord (c ∷ t) x us) first (longer_word n e (deeper u us k)))

-- The value of decimal digits, by their places.
unfoldable pub place_value : Bytes → ℕ
place_value [] = 0
place_value (c ∷ cs) = (c - b'0') * 10 ^ length cs + place_value cs

abbrev pub IsDigit : ℕ → Type 0
IsDigit c = (b'0' ≤ c) × (c ≤ b'9')

read_version-value :
    (kv : ℕ) (s : Bytes) (v : ℕ)
    → read_version kv s ≡ some v
    → All IsDigit s × (v ≡ kv * 10 ^ length s + place_value s)
unfolding read_version place_value
read_version-value kv [] v h = (tt, omega (arith, some-injective _ _ h))
read_version-value kv (c ∷ s) v h =
    let (digits, value) = read_version-value (kv * 10 + (c - b'0')) s v (ground arith) in
    let p = 10 ^ length s in
    let power : 10 ^ suc (length s) ≡ 10 * p = pow-succ' 10 (length s) in
    (
      ((ground arith, ground arith), digits),
      value
          ∙ ap (λ x. x + place_value s)
              (add-mul (kv * 10) (c - b'0') p
                ∙ ap (λ x. x + (c - b'0') * p) (mul_assoc kv 10 p ∙ ap (λ x. kv * x) (sym power)))
          ∙ add_assoc (kv * 10 ^ suc (length s)) ((c - b'0') * p) (place_value s),
    )

-- A decimal number from 1 to 2^31 - 1 without leading zeros.
abbrev pub IsNumber : Bytes → ℕ → Type 0
IsNumber w v =
    All IsDigit w × (place_value w ≡ v) × ((t : Bytes) → w ≢ b'0' ∷ t) × (1 ≤ v) × (v < 2 ^ 31)

version_range :
    (o : Option ℕ) (v : ℕ) → in_version_range o ≡ some v → (o ≡ some v) × (1 ≤ v) × (v < 2 ^ 31)
unfolding in_version_range
version_range none v h = absurd (ground arith)
version_range (some w) v h = (ground arith, ground arith, ground arith)

no_leading_zero : (w : Bytes) → starts_with_zero w ≡ false → (t : Bytes) → w ≢ b'0' ∷ t
unfolding starts_with_zero
no_leading_zero w h t e =
    let zero_first : starts_with_zero w ≡ true = ap starts_with_zero e in ground arith

pub key_version-IsNumber : (w : Bytes) (v : ℕ) → key_version w ≡ some v → IsNumber w v
unfolding key_version
key_version-IsNumber w v h =
    let (e, low, high) = version_range (read_version 0 w) v (ground arith) in
    let (digits, value) = read_version-value 0 w v e in
    (digits, omega (arith, value), no_leading_zero w (ground arith), low, high)

-- The text `t` has exactly these words between its spaces.
abbrev pub HasWords : Bytes → List Bytes → Type 0
HasWords t [] = Blank t
HasWords t (w ∷ ws) =
    (gap : Bytes) × (rest : Bytes) × (t ≡ gap ++ (w ++ rest))
    × Blank gap
    × IsWord w
    × ((rest ≡ []) ⊎ ((s : Bytes) × (rest ≡ b' ' ∷ s)))
    × HasWords rest ws

pub ends_word_cases : (t : Bytes) → ends_word t ≡ true → (t ≡ []) ⊎ ((s : Bytes) × (t ≡ b' ' ∷ s))
unfolding ends_word
ends_word_cases [] h = inl refl
ends_word_cases (c ∷ t) h = inr (t, ground arith)

pub words_of-HasWords : (t : Bytes) (ws : List Bytes) → words_of t ≡ ws → HasWords t ws
words_of-HasWords t [] h = no_words t h
words_of-HasWords t (w ∷ ws) h =
    let z = first_word t w ws h in
    (
      z.gap,
      z.rest,
      z.split,
      z.blank,
      z.word,
      ends_word_cases z.rest z.ended,
      words_of-HasWords z.rest ws z.others,
    )
