-- ===== src/Ota/Manifest/Path.antt =====
-- Which URLs `otaUrlIsGatewayPath` takes for a path on the gateway.
use presence_platform.Prelude.{
  ℕ, ◌≡◌, ◌≢◌, ◌↔◌, inl, inr, refl, ap, ap₂, eq_or_ne, sym, ◌∙◌, true, false, [], ◌∷◌, ◌++◌, Bytes,
  codes, All, Bool-cases, arith,
}
use presence_platform.Json.{after_prefix, has_prefix}
use presence_platform.Ota.Manifest.{path_char, all_path_chars, has_dots, ota_url_is_gateway_path}

has_prefix_iff :
    (p text : Bytes) → (has_prefix p text ≡ true) ↔ ((rest : Bytes) × (text ≡ p ++ rest))
unfolding has_prefix after_prefix
has_prefix_iff [] text = (λ h. (text, refl), λ z. refl)
has_prefix_iff (x ∷ p) [] = (λ h. absurd (ground arith), λ (rest, e). absurd (ground arith))
has_prefix_iff (x ∷ p) (c ∷ text) = elim (eq_or_ne x c) [
  | inl same ↦ (
    λ h.
        let deeper : has_prefix p text ≡ true = unfold has_prefix in ground arith in
        let (rest, e) = (has_prefix_iff p text).0 deeper in (rest, ap₂ ◌∷◌ (sym same) e),
    λ (rest, e).
        let others : text ≡ p ++ rest = ground arith in
        let deeper = (has_prefix_iff p text).1 (rest, others) in ground arith,
  )
  | inr other ↦ (λ h. absurd (ground arith), λ (rest, e). absurd (ground arith))
]

abbrev IsPathChar : ℕ → Type 0
IsPathChar c = path_char c ≡ true

all_path_chars_iff : (url : Bytes) → (all_path_chars url ≡ true) ↔ All IsPathChar url
unfolding all_path_chars
all_path_chars_iff [] = (λ h. tt, λ h. refl)
all_path_chars_iff (c ∷ url) = (
  λ h. (ground arith, (all_path_chars_iff url).0 (ground arith)),
  λ (first, rest). ground (arith, (all_path_chars_iff url).1 rest),
)

has_dots-dots : (xs ys : Bytes) → has_dots (xs ++ codes ".." ++ ys) ≡ true
unfolding has_dots
has_dots-dots [] ys = refl
has_dots-dots (x ∷ []) ys = ground arith
has_dots-dots (x ∷ (y ∷ xs)) ys = ground (arith, has_dots-dots (y ∷ xs) ys)

-- The place of two dots.
dots_at :
    (url : Bytes)
    → has_dots url ≡ true
    → (xs : Bytes) × ((ys : Bytes) × (url ≡ xs ++ codes ".." ++ ys))
unfolding has_dots
dots_at [] h = absurd (ground arith)
dots_at (c ∷ []) h = absurd (ground arith)
dots_at (c ∷ (d ∷ url)) h = elim (Bool-cases (has_dots (d ∷ url))) [
  | inl more ↦ let (xs, (ys, e)) = dots_at (d ∷ url) more in (c ∷ xs, (ys, ap (◌∷◌ c) e))
  | inr none_more ↦
      let first : c ≡ b'.' = ground arith in
      let second : d ≡ b'.' = ground arith in ([], (url, ap₂ (λ a b. a ∷ b ∷ url) first second))
]

dots_free_iff :
    (url : Bytes) → (has_dots url ≡ false) ↔ ((xs ys : Bytes) → url ≢ xs ++ codes ".." ++ ys)
dots_free_iff url = (
  λ h xs ys e. let dots : has_dots url ≡ true = ap has_dots e ∙ has_dots-dots xs ys in ground arith,
  λ free. elim (Bool-cases (has_dots url)) [
    | inl h ↦ let (xs, (ys, e)) = dots_at url h in absurd (free xs ys e)
    | inr h ↦ h
  ],
)

-- `otaUrlIsGatewayPath` accepts a URL exactly if it begins with `/v1/device/firmware/images/`,
-- has only letters, digits, `/`, `.`, `-` and `_`, and has no two dots in a row anywhere.
pub gateway_path_iff :
    (url : Bytes)
    → (ota_url_is_gateway_path url ≡ true)
      ↔ ((rest : Bytes) × (url ≡ codes "/v1/device/firmware/images/" ++ rest))
        × All IsPathChar url
        × ((xs ys : Bytes) → url ≢ xs ++ codes ".." ++ ys)
unfolding ota_url_is_gateway_path
gateway_path_iff url =
    let prefix = has_prefix_iff (codes "/v1/device/firmware/images/") url in
    let chars = all_path_chars_iff url in
    let dots = dots_free_iff url in
    (
      λ h. (prefix.0 (ground arith), chars.0 (ground arith), dots.0 (ground arith)),
      λ (p, c, d).
          let hp = prefix.1 p in let hc = chars.1 c in let hd = dots.1 d in rw (hp, hc, hd) refl,
    )
