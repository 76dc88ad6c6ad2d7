-- ===== src/Canonical/Unambiguous.antt =====
-- Two requests with the same signed text are the same request.
use presence_platform.Prelude.{
  inl, ℕ, ap₂, ◌≡◌, refl, true, [], ◌∷◌, ◌++◌, Bytes, codes, lacks, arith,
}
use presence_platform.Decimal.{json_int}
use presence_platform.Decimal.Laws.{lacks-json_int}
use presence_platform.Canonical.{to_upper, canonical_string}

lacks-to_upper : (s : Bytes) → lacks 10 s ≡ true → lacks 10 (to_upper s) ≡ true
unfolding lacks to_upper
lacks-to_upper [] h = refl
lacks-to_upper (c ∷ s) h = ground (arith, lacks-to_upper s)

-- The first line and the rest of a text.
first_line :
    (xs ys us vs : Bytes)
    → lacks 10 xs ≡ true
    → lacks 10 us ≡ true
    → xs ++ 10 ∷ ys ≡ us ++ 10 ∷ vs
    → (xs ≡ us) × (ys ≡ vs)
unfolding lacks
first_line [] ys [] vs h k e = (refl, ground arith)
first_line [] ys (a ∷ us) vs h k e = absurd (ground arith)
first_line (x ∷ xs) ys [] vs h k e = absurd (ground arith)
first_line (x ∷ xs) ys (a ∷ us) vs h k e =
    let (same, rest) = first_line xs ys us vs (ground arith) (ground arith) (ground arith) in
    let head : x ≡ a = ground arith in (ap₂ (◌∷◌) head same, rest)

-- The parts of a request, none of which but the body's hash holds a line end.
pub record OneLine (method path nonce : Bytes) : Type 0 where
  pub method_line : lacks 10 method ≡ true
  pub path_line : lacks 10 path ≡ true
  pub nonce_line : lacks 10 nonce ≡ true

-- If two requests, with no line end in their methods, paths and nonces, have the same signed
-- text, then they agree in the upper-case method, the path, the decimal time, the nonce and the
-- hash of the body.
pub canonical_unambiguous :
    (method path nonce body method2 path2 nonce2 body2 : Bytes) (time time2 : ℕ)
    → OneLine method path nonce
    → OneLine method2 path2 nonce2
    → canonical_string method path time nonce body
      ≡ canonical_string method2 path2 time2 nonce2 body2
    → (to_upper method ≡ to_upper method2)
      × (path ≡ path2)
      × (json_int time ≡ json_int time2)
      × (nonce ≡ nonce2)
      × (body ≡ body2)
unfolding canonical_string
canonical_unambiguous method path nonce body method2 path2 nonce2 body2 time time2 a b e =
    let (same_method, e1) =
      first_line _ _ _ _ (lacks-to_upper method a.method_line)
        (lacks-to_upper method2 b.method_line) (strip e) in
    let (same_path, e2) = first_line _ _ _ _ a.path_line b.path_line e1 in
    let (same_time, e3) =
      first_line _ _ _ _ (lacks-json_int 10 time (inl (omega arith)))
        (lacks-json_int 10 time2 (inl (omega arith))) e2 in
    let (same_nonce, e4) = first_line _ _ _ _ a.nonce_line b.nonce_line e3 in
    (same_method, same_path, same_time, same_nonce, e4)
  where
    strip : {xs ys : Bytes} → codes "v1\n" ++ xs ≡ codes "v1\n" ++ ys → xs ≡ ys
    strip h = ground arith
