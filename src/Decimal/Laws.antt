-- ===== src/Decimal/Laws.antt =====
-- The digits that `jsonInt` writes: how they grow, and that they read back.
use native.Mathlib.Nat.{pow-suc}
use presence_platform.Prelude.{
  ◌⊎◌, inl, inr, lacks, true, ◌-◌, ℕ, zero, suc, ◌+◌, ◌*◌, ◌/◌, ◌%◌, ◌^◌, ◌≤◌, ◌<◌, ◌≡◌, refl, [],
  ◌∷◌, ◌++◌, Bytes, length, length-append, arith, ==_ne,
}
use presence_platform.Decimal.{low_digits, reversed, digits, json_int}

-- More fuel than digits changes nothing.
low_digits_fuel : (f g x : ℕ) → x < 10 ^ f → x < 10 ^ g → low_digits f x ≡ low_digits g x
unfolding low_digits
low_digits_fuel zero zero x h k = refl
low_digits_fuel zero (suc g) x h k = ground arith
low_digits_fuel (suc f) zero x h k = ground arith
low_digits_fuel (suc f) (suc g) x h k = ground (
  arith,
  pow-suc 10 f,
  pow-suc 10 g,
  low_digits_fuel f g (x / 10) (omega (arith, pow-suc 10 f)) (omega (arith, pow-suc 10 g)),
)

low_digits_step : (f x : ℕ) → 0 < x → low_digits (suc f) x ≡ (b'0' + x % 10) ∷ low_digits f (x / 10)
unfolding low_digits
low_digits_step f x h = rw (==_ne x 0 (omega arith))

low_digits_zero : (f : ℕ) → low_digits f 0 ≡ []
unfolding low_digits
low_digits_zero zero = refl
low_digits_zero (suc f) = refl

-- One more digit on the right.
pub digits_snoc :
    (v d : ℕ) → 0 < v → d < 10 → v < 10 ^ 18 → digits (v * 10 + d) ≡ digits v ++ (b'0' + d) ∷ []
unfolding digits reversed
digits_snoc v d hv hd hb =
    let e : (v * 10 + d) / 10 ≡ v = omega arith in
    let m : (v * 10 + d) % 10 ≡ d = omega arith in
    rw (
      low_digits_step 19 (v * 10 + d) (omega arith),
      e,
      m,
      low_digits_fuel 19 20 v (omega arith) (omega arith),
    )

pub digits_one : (d : ℕ) → 0 < d → d < 10 → digits d ≡ (b'0' + d) ∷ []
unfolding digits reversed
digits_one d h k =
    let e : d / 10 ≡ 0 = omega arith in
    let m : d % 10 ≡ d = omega arith in rw (low_digits_step 19 d h, e, m, low_digits_zero)

length-low_digits : (f k x : ℕ) → x < 10 ^ k → length (low_digits f x) ≤ k
unfolding low_digits
length-low_digits zero k x h = omega arith
length-low_digits (suc f) zero x h = ground arith
length-low_digits (suc f) (suc k) x h =
    ground (arith, length-low_digits f k (x / 10) (omega (arith, pow-suc 10 k)))

pub length-reversed : (ds : Bytes) → length (reversed ds) ≡ length ds
unfolding reversed
length-reversed [] = refl
length-reversed (d ∷ ds) = omega (arith, length-append (reversed ds) (d ∷ []), length-reversed ds)

-- At most `k` digits for a value below `10 ^ k`.
pub length-digits : (x k : ℕ) → x < 10 ^ k → length (digits x) ≤ k
unfolding digits
length-digits x k h = rw length-reversed (length-low_digits 20 k x h)

pub lacks-append :
    (sep : ℕ) (xs ys : Bytes)
    → lacks sep xs ≡ true
    → lacks sep ys ≡ true
    → lacks sep (xs ++ ys) ≡ true
unfolding lacks
lacks-append sep [] ys h k = k
lacks-append sep (c ∷ xs) ys h k = ground (arith, lacks-append sep xs ys)

-- A byte that no number's text has.
abbrev pub IsOther : ℕ → Type 0
IsOther sep = (sep < b'-') ⊎ (b'9' < sep)

lacks-low_digits : (sep f x : ℕ) → IsOther sep → lacks sep (low_digits f x) ≡ true
unfolding lacks low_digits
lacks-low_digits sep zero x h = refl
lacks-low_digits sep (suc f) x (inl h) = ground (arith, lacks-low_digits sep f (x / 10) (inl h))
lacks-low_digits sep (suc f) x (inr h) = ground (arith, lacks-low_digits sep f (x / 10) (inr h))

lacks-reversed : (sep : ℕ) (ds : Bytes) → lacks sep ds ≡ true → lacks sep (reversed ds) ≡ true
unfolding lacks reversed
lacks-reversed sep [] h = refl
lacks-reversed sep (d ∷ ds) h =
    lacks-append sep (reversed ds) (d ∷ []) (lacks-reversed sep ds (ground arith))
      (unfold lacks in ground arith)

lacks-digits : (sep x : ℕ) → IsOther sep → lacks sep (digits x) ≡ true
unfolding digits
lacks-digits sep x h = lacks-reversed sep (low_digits 20 x) (lacks-low_digits sep 20 x h)

pub lacks-json_int : (sep w : ℕ) → IsOther sep → lacks sep (json_int w) ≡ true
unfolding lacks json_int
lacks-json_int sep w (inl h) =
    ground (arith, lacks-digits sep w (inl h), lacks-digits sep (2 ^ 64 - w) (inl h))
lacks-json_int sep w (inr h) =
    ground (arith, lacks-digits sep w (inr h), lacks-digits sep (2 ^ 64 - w) (inr h))
