-- ===== src/Setup/Http/Accepted.antt =====
-- The requests that `parseHttpRequest` accepts, and the buffers that it waits for.
use presence_platform.Prelude.{
  take-append-drop, All, ℕ, zero, suc, ◌+◌, ◌-◌, ◌≤◌, ◌<◌, ◌≡◌, ◌≢◌, refl, ap, sym, subst, true,
  Option, none, some, [], ◌∷◌, Bytes, lacks, length, take, length-take, drop, Option-cases, ◌⊎◌,
  inl, inr, arith,
}
use presence_platform.Setup.Http.{
  HttpRequest, HttpParse, incomplete, bad, too_large, ok, index_of, byte_is, find_head, all_upper,
  all_visible, read_request_line, Scan, scan_bad, scan_too_large, scanned, out_of_fuel,
  content_length, scan_headers, take_body, parse_head, parse_http_request,
}
use presence_platform.Setup.Http.Head.{head_mark, find_head-Ends, parse-some}
use presence_platform.Setup.Http.Request.{BeginsWith, BeginsWith-append, read_line-BeginsWith}
use presence_platform.Setup.Http.Line.{IsPath, IsMethod, read_line-some, scan_headers-capped}

-- What `take_body` answers.
record Answered (buf : Bytes) (r : HttpParse) : Type 0 where
  head_end : ℕ
  method : Bytes
  path : Bytes
  seen : Option ℕ
  head_small : head_end ≤ 1024
  head_room : head_end + 4 ≤ length buf
  mark : take 4 (drop head_end buf) ≡ head_mark
  first : (j : ℕ) → j < head_end → take 4 (drop j buf) ≢ head_mark
  line : IsMethod method × IsPath path
  begins : BeginsWith buf method path
  capped : content_length seen ≤ 512
  result : take_body buf head_end (method, path) (scanned seen) ≡ some r

abbrev Waits : HttpParse → Type 0
Waits r = (r ≢ bad) × (r ≢ too_large)

take_body-scanned :
    (buf : Bytes) (h : ℕ) (m : Bytes × Bytes) (s : Scan) (r : HttpParse)
    → Waits r
    → take_body buf h m s ≡ some r
    → (seen : Option ℕ) × (s ≡ scanned seen)
unfolding take_body
take_body-scanned buf h m (scanned seen) r w e = (seen, refl)
take_body-scanned buf h m scan_bad r (no_bad, no_large) e = absurd (ground (arith, no_bad))
take_body-scanned buf h m scan_too_large r (no_bad, no_large) e = absurd (ground (arith, no_large))
take_body-scanned buf h m out_of_fuel r w e = absurd (ground arith)

parse_head-Answered :
    (buf : Bytes) (h n : ℕ) (r : HttpParse)
    → h ≤ 1024
    → h + 4 ≤ length buf
    → take 4 (drop h buf) ≡ head_mark
    → ((j : ℕ) → j < h → take 4 (drop j buf) ≢ head_mark)
    → Waits r
    → parse_head buf h n ≡ some r
    → Answered buf r
unfolding parse_head
parse_head-Answered buf h n r small room mark first w e =
    elim (Option-cases (read_request_line (take n buf))) [
      | inl k ↦ absurd (ground (arith, w.0))
      | inr ((m, p), k) ↦
          let headers = scan_headers (h + 2) buf h (n + 2) (scanned none) in
          let body : take_body buf h (m, p) headers ≡ some r = ground (arith, w.0) in
          let (seen, ended) = take_body-scanned buf h (m, p) headers r w body in
          let start : (o : Option ℕ) → scanned none ≡ scanned o → content_length o ≤ 512 = λ o z.
            let same : none ≡ o = ground arith in
            subst (λ x. content_length x ≤ 512) same (unfold content_length in omega arith) in
          record {
            head_end = h;
            method = m;
            path = p;
            seen = seen;
            head_small = small;
            head_room = room;
            mark = mark;
            first = first;
            line = read_line-some (take n buf) m p k;
            begins =
                subst (λ s. BeginsWith s m p) (take-append-drop n buf)
                  (BeginsWith-append (take n buf) (drop n buf) m p
                    (read_line-BeginsWith (take n buf) m p k));
            capped = scan_headers-capped (h + 2) buf h (n + 2) (scanned none) seen start ended;
            result = rw ended at body;
          }
    ]

length-drop : (n : ℕ) (s : Bytes) → length (drop n s) ≡ length s - n
length-drop zero s = omega arith
length-drop (suc n) [] = omega arith
length-drop (suc n) (c ∷ s) = omega (arith, length-drop n s)

found_head :
    (buf : Bytes) (h : ℕ) (r : HttpParse)
    → find_head 0 buf ≡ some h
    → Waits r
    → parse_http_request buf ≡ some r
    → Answered buf r
unfolding parse_http_request
found_head buf h r e w parsed = elim (Option-cases (index_of 13 (take (h + 1) buf))) [
  | inl k ↦ absurd (ground arith)
  | inr (n, k) ↦
      let z = find_head-Ends 0 buf h e in
      let same : h - 0 ≡ h = omega arith in
      parse_head-Answered buf h n r z.small (omega (arith, z.room)) (rw same at z.mark)
        (λ j lt. z.first j (omega arith)) w (ground arith)
]

take_body-incomplete :
    (buf : Bytes) (h : ℕ) (m p : Bytes) (seen : Option ℕ)
    → take_body buf h (m, p) (scanned seen) ≡ some incomplete
    → length (drop (h + 4) buf) < content_length seen
unfolding take_body
take_body-incomplete buf h m p seen e = ground arith

take_body-ok :
    (buf : Bytes) (h : ℕ) (m p : Bytes) (seen : Option ℕ) (r : HttpRequest)
    → take_body buf h (m, p) (scanned seen) ≡ some (ok r)
    → (content_length seen ≤ length (drop (h + 4) buf))
      × (record { method = m; path = p; body = take (content_length seen) (drop (h + 4) buf) } ≡ r)
unfolding take_body
take_body-ok buf h m p seen r e = (ground arith, ground arith)

waiting_is_bounded : (buf : Bytes) → parse_http_request buf ≡ some incomplete → length buf ≤ 1539
waiting_is_bounded buf h = elim (Option-cases (find_head 0 buf)) [
  | inl e ↦ unfold parse_http_request in ground arith
  | inr (i, e) ↦
      let z = found_head buf i incomplete e (λ x. ground arith, λ x. ground arith) h in
      let few = length-drop (z.head_end + 4) buf in
      let short = take_body-incomplete buf z.head_end z.method z.path z.seen z.result in
      omega (arith, few, short, z.capped, z.head_small)
]

-- `parseHttpRequest` returns an answer for every buffer, its loop over the headers included,
-- and for a buffer of more than 1539 bytes the answer is not to keep reading.
pub parse_returns :
    (buf : Bytes)
    → (answer : HttpParse) × (parse_http_request buf ≡ some answer)
      × ((answer ≢ incomplete) ⊎ (length buf ≤ 1539))
parse_returns buf = let (answer, e) = parse-some buf in (answer, e, bounded answer e)
  where
    bounded :
        (r : HttpParse) → parse_http_request buf ≡ some r → (r ≢ incomplete) ⊎ (length buf ≤ 1539)
    bounded incomplete e = inr (waiting_is_bounded buf e)
    bounded bad e = inl (λ h. ground arith)
    bounded too_large e = inl (λ h. ground arith)
    bounded (ok r) e = inl (λ h. ground arith)

-- The bytes of the buffer that a body is: those behind its first blank line.
abbrev BodyOf : Bytes → Bytes → Type 0
BodyOf buf body =
    (head_end : ℕ) × (head_end ≤ 1024)
    × (take 4 (drop head_end buf) ≡ head_mark)
    × ((j : ℕ) → j < head_end → take 4 (drop j buf) ≢ head_mark)
    × (head_end + 4 + length body ≤ length buf)
    × (body ≡ take (length body) (drop (head_end + 4) buf))

abbrev pub IsCapital : ℕ → Type 0
IsCapital c = (b'A' ≤ c) × (c ≤ b'Z')

-- Visible ASCII that ends no path.
abbrev pub IsPathChar : ℕ → Type 0
IsPathChar c = (0x20 < c) × (c < 0x7F) × (c ≢ b'?') × (c ≢ b'#')

all_upper-All : (m : Bytes) → all_upper m ≡ true → All IsCapital m
unfolding all_upper
all_upper-All [] h = tt
all_upper-All (c ∷ m) h = ((ground arith, ground arith), all_upper-All m (ground arith))

all_visible-All :
    (p : Bytes)
    → all_visible p ≡ true
    → lacks b'?' p ≡ true
    → lacks b'#' p ≡ true
    → All IsPathChar p
unfolding all_visible lacks
all_visible-All [] h q f = tt
all_visible-All (c ∷ p) h q f = (
  (ground arith, ground arith, λ e. ground arith, λ e. ground arith),
  all_visible-All p (ground arith) (ground arith) (ground arith),
)

starts_with : (c : ℕ) (p : Bytes) → byte_is 0 c p ≡ true → (t : Bytes) × (p ≡ c ∷ t)
unfolding byte_is
starts_with c [] h = absurd (ground arith)
starts_with c (x ∷ p) h = (p, ground arith)

abbrev Accepted : Bytes → HttpRequest → Type 0
Accepted buf r =
    ((0 < length r.method) × (length r.method ≤ 8) × All IsCapital r.method)
    × (((t : Bytes) × (r.path ≡ b'/' ∷ t)) × All IsPathChar r.path)
    × BeginsWith buf r.method r.path
    × (length r.body ≤ 512)
    × BodyOf buf r.body

-- A request that `parseHttpRequest` accepts has a method of 1 to 8 capital letters, a path of
-- visible ASCII that begins with `/` and holds no `?` and no `#`, and a body of at most 512
-- bytes. The buffer begins with the method, a space, the path and then a space, a `?` or a `#`;
-- the body is those bytes of the buffer that follow its first CR LF CR LF, which starts at most
-- 1024 bytes in, and lies within the buffer.
pub accepted_request :
    (buf : Bytes) (r : HttpRequest)
    → parse_http_request buf ≡ some (ok r)
    → ((0 < length r.method) × (length r.method ≤ 8) × All IsCapital r.method)
      × (((t : Bytes) × (r.path ≡ b'/' ∷ t)) × All IsPathChar r.path)
      × BeginsWith buf r.method r.path
      × (length r.body ≤ 512)
      × BodyOf buf r.body
accepted_request buf r h = elim (Option-cases (find_head 0 buf)) [
  | inl e ↦ absurd (unfold parse_http_request in ground arith)
  | inr (i, e) ↦
      let z = found_head buf i (ok r) e (λ x. ground arith, λ x. ground arith) h in
      let (enough, same) = take_body-ok buf z.head_end z.method z.path z.seen r z.result in
      let n = content_length z.seen in
      let rest = drop (z.head_end + 4) buf in
      let few = length-drop (z.head_end + 4) buf in
      let size : length (take n rest) ≡ n = omega (arith, length-take n rest, enough) in
      let ((some_length, short, capitals), (slash, visible, query, fragment)) = z.line in
      let method : (0 < length z.method) × (length z.method ≤ 8) × All IsCapital z.method =
        (some_length, short, all_upper-All z.method capitals) in
      let path : ((t : Bytes) × (z.path ≡ b'/' ∷ t)) × All IsPathChar z.path =
        (starts_with b'/' z.path slash, all_visible-All z.path visible query fragment) in
      let room : z.head_end + 4 + length (take n rest) ≤ length buf =
        omega (arith, few, size, enough, z.head_room) in
      let body : BodyOf buf (take n rest) =
        (z.head_end, z.head_small, z.mark, z.first, room, ap (λ k. take k rest) (sym size)) in
      subst (Accepted buf) same (method, path, z.begins, omega (arith, size, z.capped), body)
]
