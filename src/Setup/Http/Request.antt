-- ===== src/Setup/Http/Request.antt =====
-- The method and the path that `parseHttpRequest` takes from the start of a request.
use presence_platform.Prelude.{
  ℕ, zero, suc, ◌+◌, ◌≡◌, ◌⊎◌, refl, ap, ◌∙◌, some, [], ◌∷◌, ◌++◌, append_assoc, Bytes, take, drop,
  ◌==◌, ◌||◌, Option-cases, Bool-cases, inl, inr, arith,
}
use presence_platform.Setup.Http.{index_of, path_of, read_target, read_method, read_request_line}

-- A path ends before a space, a `?` or a `#`.
abbrev pub IsPathEnd : ℕ → Type 0
IsPathEnd e = (e ≡ b' ') ⊎ (e ≡ b'?') ⊎ (e ≡ b'#')

-- `s` begins with a method, a space and a path, and something that ends the path.
abbrev pub BeginsWith : Bytes → Bytes → Bytes → Type 0
BeginsWith s m p = (e : ℕ) × (t : Bytes) × (s ≡ m ++ (b' ' ∷ (p ++ (e ∷ t)))) × IsPathEnd e

index_of-split :
    (c : ℕ) (s : Bytes) (i : ℕ) → index_of c s ≡ some i → s ≡ take i s ++ (c ∷ drop (i + 1) s)
unfolding index_of
index_of-split c [] i h = absurd (ground arith)
index_of-split c (x ∷ s) zero h = let here : x ≡ c = ground arith in ap (λ y. y ∷ s) here
index_of-split c (x ∷ s) (suc i) h =
    let deeper : index_of c s ≡ some i = ground arith in
    let shift : suc (i + 1) ≡ suc i + 1 = omega arith in
    ap (λ t. x ∷ t) (index_of-split c s i deeper)
    ∙ ap (λ k. x ∷ (take i s ++ (c ∷ drop k (x ∷ s)))) shift

target_split :
    (t d : Bytes) → (e : ℕ) × (u : Bytes) × (t ++ (b' ' ∷ d) ≡ path_of t ++ (e ∷ u)) × IsPathEnd e
unfolding path_of
target_split [] d = (b' ', d, refl, inl refl)
target_split (c ∷ t) d = elim (Bool-cases (c == b'?' || c == b'#')) [
  | inl h ↦ (c, t ++ (b' ' ∷ d), rw h refl, inr (ground arith))
  | inr h ↦ let (e, u, split, ends) = target_split t d in (e, u, rw h (ap (λ s. c ∷ s) split), ends)
]

read_method-BeginsWith :
    (line : Bytes) (n : ℕ) (m p : Bytes)
    → index_of b' ' line ≡ some n
    → read_method line n ≡ some (m, p)
    → BeginsWith line m p
unfolding read_method read_target
read_method-BeginsWith line n m p at h =
    let rest = drop (n + 1) line in
    elim (Option-cases (index_of b' ' rest)) [
      | inl e ↦ absurd (ground arith)
      | inr (k, e) ↦
          let method : take n line ≡ m = ground arith in
          let path : path_of (take k rest) ≡ p = ground arith in
          let (stop, u, split, ends) = target_split (take k rest) (drop (k + 1) rest) in
          let target : rest ≡ p ++ (stop ∷ u) =
            index_of-split b' ' rest k e ∙ split ∙ ap (λ q. q ++ (stop ∷ u)) path in
          (
            stop,
            u,
            index_of-split b' ' line n at
                ∙ ap (λ q. q ++ (b' ' ∷ rest)) method
                ∙ ap (λ q. m ++ (b' ' ∷ q)) target,
            ends,
          )
    ]

pub read_line-BeginsWith :
    (line m p : Bytes) → read_request_line line ≡ some (m, p) → BeginsWith line m p
unfolding read_request_line
read_line-BeginsWith line m p h = elim (Option-cases (index_of b' ' line)) [
  | inl e ↦ absurd (ground arith)
  | inr (n, e) ↦ read_method-BeginsWith line n m p e (ground arith)
]

-- What begins a line begins the buffer.
pub BeginsWith-append :
    (line more m p : Bytes) → BeginsWith line m p → BeginsWith (line ++ more) m p
BeginsWith-append line more m p (e, t, split, ends) = (
  e,
  t ++ more,
  ap (λ s. s ++ more) split
      ∙ append_assoc m (b' ' ∷ (p ++ (e ∷ t))) more
      ∙ ap (λ s. m ++ (b' ' ∷ s)) (append_assoc p (e ∷ t) more),
  ends,
)
