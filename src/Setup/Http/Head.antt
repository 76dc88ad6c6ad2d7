-- ===== src/Setup/Http/Head.antt =====
-- `parseHttpRequest` always answers: where its searches end, and how far its loop gets.
use presence_platform.Prelude.{
  ℕ, zero, suc, ◌+◌, ◌-◌, ◌*◌, ◌≤◌, ◌<◌, ◌≡◌, ◌≢◌, refl, ◌&&◌, Option, none, some, [], ◌∷◌, Bytes,
  length, take, drop, get_elem?, ◌==◌, ltb, if◌then◌else◌, Option-cases, Bool-cases, inl, inr,
  arith,
}
use presence_platform.Setup.Http.{
  HttpParse, incomplete, bad, too_large, ok, index_of, byte_is, find_head, read_request_line, Scan,
  scan_bad, scan_too_large, scanned, out_of_fuel, read_length, first_length, read_header,
  split_header, skip_blanks, drop_blanks, content_length, line_end, header_at, scan_headers,
  take_body, parse_head, parse_http_request,
}

-- The blank line that ends a head: "\r\n\r\n".
abbrev pub head_mark : Bytes
head_mark = 13 ∷ 10 ∷ 13 ∷ 10 ∷ []

-- The head that was found.
pub record Ends (i : ℕ) (buf : Bytes) (h : ℕ) : Type 0 where
  pub past : i ≤ h
  pub small : h ≤ 1024
  pub room : h + 4 ≤ i + length buf
  pub cr : get_elem? buf (h - i) ≡ some 13
  pub mark : take 4 (drop (h - i) buf) ≡ head_mark
  pub first : (j : ℕ) → j < h - i → take 4 (drop j buf) ≢ head_mark

-- No mark here and none behind it up to `n - 1` is no mark before `n`.
earlier :
    (c : ℕ) (s : Bytes) (n : ℕ)
    → take 4 (c ∷ s) ≢ head_mark
    → ((j : ℕ) → j + 1 < n → take 4 (drop j s) ≢ head_mark)
    → (j : ℕ) → j < n
    → take 4 (drop j (c ∷ s)) ≢ head_mark
earlier c s n here later zero lt = here
earlier c s n here later (suc j) lt = later j (omega arith)

pub find_head-Ends : (i : ℕ) (buf : Bytes) (h : ℕ) → find_head i buf ≡ some h → Ends i buf h
unfolding find_head
find_head-Ends i [] h e = absurd (ground arith)
find_head-Ends i (a ∷ []) h e = absurd (ground arith)
find_head-Ends i (a ∷ (b ∷ [])) h e = absurd (ground arith)
find_head-Ends i (a ∷ (b ∷ (c ∷ []))) h e = absurd (ground arith)
find_head-Ends i (a ∷ (b ∷ (c ∷ (d ∷ rest)))) h e =
    elim (Bool-cases (a == 13 && b == 10 && c == 13 && d == 10)) [
      | inl here ↦
          let at : i ≡ h = ground arith in
          let first : a ≡ 13 = ground arith in
          let none_before : h - i ≡ 0 = omega arith in
          record {
            past = omega arith;
            small = ground arith;
            room = omega arith;
            cr = rw (none_before, first) refl;
            mark = rw none_before (ground arith);
            first = λ j lt. absurd (omega arith);
          }
      | inr later ↦
          let deeper : find_head (suc i) (b ∷ c ∷ d ∷ rest) ≡ some h = ground arith in
          let z = find_head-Ends (suc i) (b ∷ c ∷ d ∷ rest) h deeper in
          let next : h - i ≡ suc (h - suc i) = omega (arith, z.past) in
          record {
            past = omega (arith, z.past);
            small = z.small;
            room = omega (arith, z.room);
            cr = rw next z.cr;
            mark = rw next z.mark;
            first =
                earlier a (b ∷ c ∷ d ∷ rest) (h - i) (λ e. ground arith)
                  (λ j lt. z.first j (omega arith));
          }
    ]

pub index_of-take :
    (c : ℕ) (xs : Bytes) (k : ℕ)
    → get_elem? xs k ≡ some c
    → (j : ℕ) × (index_of c (take (k + 1) xs) ≡ some j) × (j ≤ k)
unfolding index_of
index_of-take c [] k h = absurd (ground arith)
index_of-take c (x ∷ xs) zero h = (0, ground arith, omega arith)
index_of-take c (x ∷ xs) (suc k) h =
    let (j, found, le) = index_of-take c xs k h in
    elim (Bool-cases (x == c)) [
      | inl e ↦ (0, ground arith, omega arith)
      | inr e ↦ (suc j, ground arith, omega arith)
    ]

-- A scan that did not run out of fuel.
abbrev Ended : Scan → Type 0
Ended r = r ≢ out_of_fuel

read_length-Ended : (n : ℕ) (s : Bytes) → Ended (read_length n s)
unfolding read_length
read_length-Ended n [] h = ground arith
read_length-Ended n (c ∷ s) h =
    let rest = read_length-Ended (n * 10 + (c - b'0')) s in ground (arith, rest)

first_length-Ended : (seen : Option ℕ) (value : Bytes) → Ended (first_length seen value)
unfolding first_length
first_length-Ended none value h = ground (arith, read_length-Ended 0 value)
first_length-Ended (some n) value h = ground arith

read_header-Ended : (seen : Option ℕ) (name value : Bytes) → Ended (read_header seen name value)
unfolding read_header
read_header-Ended seen name value h = ground (arith, first_length-Ended seen value)

split_header-Ended : (seen : Option ℕ) (line : Bytes) → Ended (split_header seen line)
unfolding split_header
split_header-Ended seen line h = elim (Option-cases (index_of b':' line)) [
  | inl e ↦ ground arith
  | inr (colon, e) ↦ ground (
    arith,
    read_header-Ended seen (take colon line) (drop_blanks (skip_blanks (drop (colon + 1) line))),
  )
]

header_at-Ended : (buf : Bytes) (h p : ℕ) (seen : Option ℕ) → Ended (header_at buf h p seen)
unfolding header_at
header_at-Ended buf h p seen e =
    ground (arith, split_header-Ended seen (take (line_end buf h p - p) (drop p buf)))

line_end_past : (buf : Bytes) (h p : ℕ) → p < h + 2 → p < line_end buf h p + 2
unfolding line_end
line_end_past buf h p lt = elim (Option-cases (index_of 13 (take (h + 2 - p) (drop p buf)))) [
  | inl e ↦ rw (line_end, e) lt
  | inr (k, e) ↦ rw (line_end, e) (omega arith)
]

scan_headers-Ended :
    (fuel : ℕ) (buf : Bytes) (h p : ℕ) (r : Scan)
    → h + 2 ≤ fuel + p
    → Ended r
    → Ended (scan_headers fuel buf h p r)
unfolding scan_headers
scan_headers-Ended zero buf h p (scanned seen) enough ended e = ground arith
scan_headers-Ended (suc fuel) buf h p (scanned seen) enough ended e =
    elim (Bool-cases (ltb p (h + 2))) [
      | inl lt ↦
          let past = line_end_past buf h p (ground arith) in
          scan_headers-Ended fuel buf h (line_end buf h p + 2) (header_at buf h p seen)
            (omega arith) (header_at-Ended buf h p seen) (ground arith)
      | inr done ↦ ground arith
    ]
scan_headers-Ended zero buf h p scan_bad enough ended e = ended e
scan_headers-Ended zero buf h p scan_too_large enough ended e = ended e
scan_headers-Ended zero buf h p out_of_fuel enough ended e = ended e
scan_headers-Ended (suc fuel) buf h p scan_bad enough ended e = ended e
scan_headers-Ended (suc fuel) buf h p scan_too_large enough ended e = ended e
scan_headers-Ended (suc fuel) buf h p out_of_fuel enough ended e = ended e

take_body-some :
    (buf : Bytes) (h : ℕ) (m : Bytes × Bytes) (r : Scan)
    → Ended r
    → (a : HttpParse) × (take_body buf h m r ≡ some a)
unfolding take_body
take_body-some buf h (method, path) (scanned seen) ended =
    elim (Bool-cases (ltb (length (drop (h + 4) buf)) (content_length seen))) [
      | inl short ↦ (incomplete, rw short refl)
      | inr whole ↦
          let n = content_length seen in
          (
            ok (record { method = method; path = path; body = take n (drop (h + 4) buf) }),
            rw whole refl,
          )
    ]
take_body-some buf h m scan_bad ended = (bad, refl)
take_body-some buf h m scan_too_large ended = (too_large, refl)
take_body-some buf h m out_of_fuel ended = absurd (ended refl)

parse_head-some : (buf : Bytes) (h n : ℕ) → (a : HttpParse) × (parse_head buf h n ≡ some a)
unfolding parse_head
parse_head-some buf h n = elim (Bool-cases (byte_is (n + 1) 10 buf)) [
  | inr e ↦ (bad, rw e refl)
  | inl e ↦ elim (Option-cases (read_request_line (take n buf))) [
    | inl k ↦ (bad, rw (e, k) refl)
    | inr (m, k) ↦
        let ended =
          scan_headers-Ended (h + 2) buf h (n + 2) (scanned none) (omega arith)
            (λ z. ground arith) in
        let (a, done) = take_body-some buf h m _ ended in (a, rw (e, k) done)
  ]
]

pub parse-some : (buf : Bytes) → (answer : HttpParse) × (parse_http_request buf ≡ some answer)
unfolding parse_http_request
parse-some buf = elim (Option-cases (find_head 0 buf)) [
  | inl e ↦
      (if ltb 1027 (length buf) then too_large else incomplete, rw (parse_http_request, e) refl)
  | inr (h, e) ↦
      let z = find_head-Ends 0 buf h e in
      let same : h - 0 ≡ h = omega arith in
      let (n, found, _) = index_of-take 13 buf h (rw same at z.cr) in
      let (a, parsed) = parse_head-some buf h n in (a, rw (parse_http_request, e, found) parsed)
]
