-- ===== src/Setup/Http.antt =====
-- firmware/src/wifi_provision.h: `asciiIEquals` and `parseHttpRequest`. The buffer is the list of its
-- `len` bytes. `memchr` returns a position from where it starts to search.
pub mod Head
pub mod Line
pub mod Request
pub mod Accepted
use presence_platform.Prelude.{
  ℕ, zero, suc, ◌+◌, ◌-◌, ◌*◌, Bool, true, false, not, ◌&&◌, ◌||◌, Option, none, some, [], ◌∷◌,
  Bytes, bytes_eq, codes, length, take, drop, get_elem?, ◌==◌, ltb, leb, if◌then◌else◌,
}

abbrev pub portal_max_head : ℕ
portal_max_head = 1024

abbrev pub portal_max_body : ℕ
portal_max_body = 512

pub record HttpRequest : Type 0 where
  pub method : Bytes
  pub path : Bytes
  pub body : Bytes

-- The request is written only on `ok`.
pub data HttpParse : Type 0 where
  incomplete bad too_large : HttpParse
  ok : HttpRequest → HttpParse

unfoldable pub index_of : ℕ → Bytes → Option ℕ
index_of c [] = none
index_of c (x ∷ xs) =
    let rest = index_of c xs in
    if x == c then some 0 else elim rest [ none ↦ none | some i ↦ some (suc i) ]

-- `buf[i] == c`
unfoldable pub byte_is : ℕ → ℕ → Bytes → Bool
byte_is i c buf = elim (get_elem? buf i) [ none ↦ false | some x ↦ x == c ]

unfoldable pub ascii_lower : ℕ → ℕ
ascii_lower c = if leb b'A' c && leb c b'Z' then c - b'A' + b'a' else c

unfoldable pub ascii_i_equals : Bytes → Bytes → Bool
ascii_i_equals [] [] = true
ascii_i_equals (x ∷ xs) (y ∷ ys) = ascii_lower x == ascii_lower y && ascii_i_equals xs ys
ascii_i_equals _ _ = false

-- The search for the "\r\n\r\n", at index `i`.
unfoldable pub find_head : ℕ → Bytes → Option ℕ
find_head i (a ∷ (b ∷ (c ∷ (d ∷ rest)))) =
    let next = find_head (suc i) (b ∷ (c ∷ (d ∷ rest))) in
    if ltb portal_max_head i
    then none
    else if a == 13 && b == 10 && c == 13 && d == 10
    then some i
    else next
find_head i _ = none

unfoldable pub all_upper : Bytes → Bool
all_upper [] = true
all_upper (c ∷ cs) = leb b'A' c && leb c b'Z' && all_upper cs

unfoldable pub all_visible : Bytes → Bool
all_visible [] = true
all_visible (c ∷ cs) = not (leb c 0x20 || leb 0x7F c) && all_visible cs

-- The target up to its `?` or `#`.
unfoldable pub path_of : Bytes → Bytes
path_of [] = []
path_of (c ∷ cs) = let rest = path_of cs in if c == b'?' || c == b'#' then [] else c ∷ rest

unfoldable pub http_version : Bytes → Bool
http_version v = length v == 8 && bytes_eq (take 7 v) (codes "HTTP/1.")

-- The method and the path, behind the checks on the target of `target_len` bytes.
unfoldable pub read_target : Bytes → Bytes → ℕ → Option (Bytes × Bytes)
read_target method rest target_len =
    let target = take target_len rest in
    if target_len == 0 || not (byte_is 0 b'/' rest)
    then none
    else if not (http_version (drop (target_len + 1) rest))
    then none
    else if not (all_visible target)
    then none
    else some (method, path_of target)

unfoldable pub read_method : Bytes → ℕ → Option (Bytes × Bytes)
read_method line method_len =
    let method = take method_len line in
    let rest = drop (method_len + 1) line in
    if method_len == 0 || ltb 8 method_len
    then none
    else if not (all_upper method)
    then none
    else elim (index_of b' ' rest) [
      | none ↦ none
      | some target_len ↦ read_target method rest target_len
    ]

-- The first line, without its "\r\n"; `none` is `Bad`.
unfoldable pub read_request_line : Bytes → Option (Bytes × Bytes)
read_request_line line = elim (index_of b' ' line) [
  | none ↦ none
  | some method_len ↦ read_method line method_len
]

unfoldable pub is_blank : ℕ → Bool
is_blank c = c == b' ' || c == 9

unfoldable pub skip_blanks : Bytes → Bytes
skip_blanks [] = []
skip_blanks (c ∷ cs) = let rest = skip_blanks cs in if is_blank c then rest else c ∷ cs

unfoldable pub drop_blanks : Bytes → Bytes
drop_blanks [] = []
drop_blanks (c ∷ cs) =
    let rest = drop_blanks cs in if length rest == 0 && is_blank c then [] else c ∷ rest

-- The content length so far, or the error that a header is.
pub data Scan : Type 0 where
  scan_bad scan_too_large out_of_fuel : Scan
  scanned : Option ℕ → Scan

-- The loop over the digits of `Content-Length`.
unfoldable pub read_length : ℕ → Bytes → Scan
read_length n [] = scanned (some n)
read_length n (c ∷ cs) =
    let next = n * 10 + (c - b'0') in
    let rest = read_length next cs in
    if ltb c b'0' || ltb b'9' c
    then scan_bad
    else if ltb portal_max_body next
    then scan_too_large
    else rest

unfoldable pub first_length : Option ℕ → Bytes → Scan
first_length none value = if length value == 0 then scan_bad else read_length 0 value
first_length (some n) value = scan_bad

-- One header; `none` is no content length yet.
unfoldable pub read_header : Option ℕ → Bytes → Bytes → Scan
read_header seen name value =
    if ascii_i_equals name (codes "transfer-encoding")
    then scan_bad
    else if ascii_i_equals name (codes "content-length")
    then first_length seen value
    else scanned seen

unfoldable pub split_header : Option ℕ → Bytes → Scan
split_header seen line = elim (index_of b':' line) [
  | none ↦ scan_bad
  | some colon ↦
      if colon == 0
      then scan_bad
      else read_header seen (take colon line) (drop_blanks (skip_blanks (drop (colon + 1) line)))
]

-- Where the line that starts at `p` ends.
unfoldable pub line_end : Bytes → ℕ → ℕ → ℕ
line_end buf head_end p = elim (index_of 13 (take (head_end + 2 - p) (drop p buf))) [
  | none ↦ head_end
  | some k ↦ p + k
]

unfoldable pub header_at : Bytes → ℕ → ℕ → Option ℕ → Scan
header_at buf head_end p seen =
    let end = line_end buf head_end p in
    if not (byte_is (end + 1) 10 buf)
    then scan_bad
    else split_header seen (take (end - p) (drop p buf))

-- `while (p < headEnd + 2)`
unfoldable pub scan_headers : ℕ → Bytes → ℕ → ℕ → Scan → Scan
scan_headers zero buf head_end p (scanned seen) =
    if ltb p (head_end + 2) then out_of_fuel else scanned seen
scan_headers (suc fuel) buf head_end p (scanned seen) =
    let rest =
      scan_headers fuel buf head_end (line_end buf head_end p + 2)
        (header_at buf head_end p seen) in
    if ltb p (head_end + 2) then rest else scanned seen
scan_headers fuel buf head_end p r = r

unfoldable pub content_length : Option ℕ → ℕ
content_length none = 0
content_length (some n) = n

-- The body, and the answer; `none` is a loop that ran out of fuel.
unfoldable pub take_body : Bytes → ℕ → Bytes × Bytes → Scan → Option HttpParse
take_body buf head_end (method, path) (scanned seen) =
    let n = content_length seen in
    let rest = drop (head_end + 4) buf in
    if ltb (length rest) n
    then some incomplete
    else some (ok (record { method = method; path = path; body = take n rest }))
take_body buf head_end m scan_bad = some bad
take_body buf head_end m scan_too_large = some too_large
take_body buf head_end m out_of_fuel = none

unfoldable pub parse_head : Bytes → ℕ → ℕ → Option HttpParse
parse_head buf head_end line_len =
    if not (byte_is (line_len + 1) 10 buf)
    then some bad
    else elim (read_request_line (take line_len buf)) [
      | none ↦ some bad
      | some m ↦
          take_body buf head_end m
            (scan_headers (head_end + 2) buf head_end (line_len + 2) (scanned none))
    ]

-- The head ends with a '\r', so the `memchr` of the first line finds one.
unfoldable pub parse_http_request : Bytes → Option HttpParse
parse_http_request buf = elim (find_head 0 buf) [
  | none ↦ some (if ltb (portal_max_head + 3) (length buf) then too_large else incomplete)
  | some head_end ↦ elim (index_of 13 (take (head_end + 1) buf)) [
    | none ↦ none
    | some line_len ↦ parse_head buf head_end line_len
  ]
]
