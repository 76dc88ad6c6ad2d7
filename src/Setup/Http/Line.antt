-- ===== src/Setup/Http/Line.antt =====
-- The request line and the content length that `parseHttpRequest` reads.
use presence_platform.Prelude.{
  ℕ, zero, suc, ◌+◌, ◌-◌, ◌*◌, ◌≤◌, ◌<◌, ◌≡◌, refl, subst, true, false, Option, none, some, [], ◌∷◌,
  Bytes, lacks, length, take, length-take, drop, ◌==◌, ltb, Option-cases, Bool-cases, inl, inr,
  arith,
}
use presence_platform.Setup.Http.{
  index_of, byte_is, all_upper, all_visible, path_of, read_target, read_method, read_request_line,
  Scan, scan_bad, scan_too_large, scanned, out_of_fuel, read_length, first_length, read_header,
  split_header, skip_blanks, drop_blanks, content_length, line_end, header_at, scan_headers,
}

-- What a path is.
abbrev pub IsPath : Bytes → Type 0
IsPath p =
    (byte_is 0 b'/' p ≡ true)
    × (all_visible p ≡ true)
    × (lacks b'?' p ≡ true)
    × (lacks b'#' p ≡ true)

path_tail :
    (t : Bytes)
    → all_visible t ≡ true
    → (all_visible (path_of t) ≡ true)
      × (lacks b'?' (path_of t) ≡ true)
      × (lacks b'#' (path_of t) ≡ true)
unfolding all_visible lacks path_of
path_tail [] h = (refl, refl, refl)
path_tail (c ∷ t) h =
    let rest : all_visible t ≡ true = ground arith in
    let (a, b, d) = path_tail t rest in (ground (arith, a), ground (arith, b), ground (arith, d))

path_of-IsPath : (t : Bytes) → byte_is 0 b'/' t ≡ true → all_visible t ≡ true → IsPath (path_of t)
path_of-IsPath [] slash h = absurd (unfold byte_is in ground arith)
path_of-IsPath (c ∷ t) slash h =
    let first : c ≡ b'/' = unfold byte_is in ground arith in
    let begins : byte_is 0 b'/' (path_of (c ∷ t)) ≡ true =
      unfold byte_is in unfold path_of in ground arith in
    let (visible, query, fragment) = path_tail (c ∷ t) h in (begins, visible, query, fragment)

first-take :
    (c n : ℕ) (s : Bytes) → (n == 0) ≡ false → byte_is 0 c s ≡ true → byte_is 0 c (take n s) ≡ true
unfolding byte_is
first-take c zero s h e = absurd (ground arith)
first-take c (suc n) [] h e = absurd (ground arith)
first-take c (suc n) (x ∷ s) h e = e

abbrev pub IsMethod : Bytes → Type 0
IsMethod m = (0 < length m) × (length m ≤ 8) × (all_upper m ≡ true)

read_target-some :
    (method rest : Bytes) (n : ℕ) (m p : Bytes)
    → read_target method rest n ≡ some (m, p)
    → (method ≡ m) × IsPath p
unfolding read_target
read_target-some method rest n m p h =
    let slash : byte_is 0 b'/' rest ≡ true = ground arith in
    let long : (n == 0) ≡ false = ground arith in
    let visible : all_visible (take n rest) ≡ true = ground arith in
    let same : path_of (take n rest) ≡ p = ground arith in
    (
      ground arith,
      subst IsPath same (path_of-IsPath (take n rest) (first-take b'/' n rest long slash) visible),
    )

index_of-lt : (c : ℕ) (s : Bytes) (i : ℕ) → index_of c s ≡ some i → i < length s
unfolding index_of
index_of-lt c [] i h = absurd (ground arith)
index_of-lt c (x ∷ s) i h = elim (Option-cases (index_of c s)) [
  | inl e ↦ ground arith
  | inr (j, e) ↦ ground (arith, index_of-lt c s j e)
]

read_method-some :
    (line : Bytes) (n : ℕ) (m p : Bytes)
    → n < length line
    → read_method line n ≡ some (m, p)
    → IsMethod m × IsPath p
unfolding read_method
read_method-some line n m p lt h = elim (Option-cases (index_of b' ' (drop (n + 1) line))) [
  | inl e ↦ absurd (ground arith)
  | inr (k, e) ↦
      let target : read_target (take n line) (drop (n + 1) line) k ≡ some (m, p) = ground arith in
      let (same, path) = read_target-some _ _ k m p target in
      let size : length (take n line) ≡ n = omega (arith, length-take n line) in
      let upper : all_upper (take n line) ≡ true = ground arith in
      let positive : 0 < n = ground arith in
      let short : n ≤ 8 = ground arith in
      (subst IsMethod same (omega arith, omega arith, upper), path)
]

pub read_line-some :
    (line m p : Bytes) → read_request_line line ≡ some (m, p) → IsMethod m × IsPath p
unfolding read_request_line
read_line-some line m p h = elim (Option-cases (index_of b' ' line)) [
  | inl e ↦ absurd (ground arith)
  | inr (n, e) ↦ read_method-some line n m p (index_of-lt b' ' line n e) (ground arith)
]

read_length-capped :
    (n : ℕ) (s : Bytes) (o : Option ℕ)
    → n ≤ 512
    → read_length n s ≡ scanned o
    → content_length o ≤ 512
unfolding read_length
read_length-capped n [] o h e =
    let same : some n ≡ o = ground arith in
    subst (λ x. content_length x ≤ 512) same (unfold content_length in h)
read_length-capped n (c ∷ s) o h e =
    read_length-capped (n * 10 + (c - b'0')) s o (ground arith) (ground arith)

first_length-capped :
    (seen : Option ℕ) (s : Bytes) (o : Option ℕ)
    → first_length seen s ≡ scanned o
    → content_length o ≤ 512
unfolding first_length
first_length-capped none s o e = read_length-capped 0 s o (omega arith) (ground arith)
first_length-capped (some n) s o e = absurd (ground arith)

read_header-capped :
    (seen : Option ℕ) (name value : Bytes) (o : Option ℕ)
    → content_length seen ≤ 512
    → read_header seen name value ≡ scanned o
    → content_length o ≤ 512
unfolding read_header
read_header-capped seen name value o h e = ground (arith, first_length-capped seen value o)

header_at-capped :
    (buf : Bytes) (end p : ℕ) (seen o : Option ℕ)
    → content_length seen ≤ 512
    → header_at buf end p seen ≡ scanned o
    → content_length o ≤ 512
unfolding header_at split_header
header_at-capped buf end p seen o h e =
    let line = take (line_end buf end p - p) (drop p buf) in
    elim (Option-cases (index_of b':' line)) [
      | inl k ↦ absurd (ground arith)
      | inr (colon, k) ↦
          read_header-capped seen (take colon line)
            (drop_blanks (skip_blanks (drop (colon + 1) line))) o h (ground arith)
    ]

pub scan_headers-capped :
    (fuel : ℕ) (buf : Bytes) (end p : ℕ) (r : Scan) (o : Option ℕ)
    → ((seen : Option ℕ) → r ≡ scanned seen → content_length seen ≤ 512)
    → scan_headers fuel buf end p r ≡ scanned o
    → content_length o ≤ 512
unfolding scan_headers
scan_headers-capped zero buf end p (scanned seen) o c e = c o (ground arith)
scan_headers-capped (suc fuel) buf end p (scanned seen) o c e =
    elim (Bool-cases (ltb p (end + 2))) [
      | inl more ↦
          scan_headers-capped fuel buf end (line_end buf end p + 2) (header_at buf end p seen) o
            (λ later z. header_at-capped buf end p seen later (c seen refl) z) (ground arith)
      | inr done ↦ c o (ground arith)
    ]
scan_headers-capped zero buf end p scan_bad o c e = absurd (ground arith)
scan_headers-capped zero buf end p scan_too_large o c e = absurd (ground arith)
scan_headers-capped zero buf end p out_of_fuel o c e = absurd (ground arith)
scan_headers-capped (suc fuel) buf end p scan_bad o c e = absurd (ground arith)
scan_headers-capped (suc fuel) buf end p scan_too_large o c e = absurd (ground arith)
scan_headers-capped (suc fuel) buf end p out_of_fuel o c e = absurd (ground arith)
