-- ===== src/Setup/Pages/Escaping.antt =====
-- What `htmlEscape` lets into a page.
use presence_platform.Prelude.{
  ℕ, ◌≡◌, ◌↔◌, refl, ap, ap₂, sym, true, [], ◌∷◌, ◌++◌, Bytes, lacks, arith,
}
use presence_platform.Setup.Pages.{escaped, html_escape}

-- The bytes that would close an attribute or open a tag.
abbrev Harmless : Bytes → Type 0
Harmless s =
    (lacks b'<' s ≡ true) × (lacks b'>' s ≡ true) × (lacks b'"' s ≡ true) × (lacks 39 s ≡ true)

lacks-escaped : (c : ℕ) (s : Bytes) → Harmless s → Harmless (escaped c ++ s)
unfolding escaped lacks
lacks-escaped c s (lt, gt, quote, single) = (ground arith, ground arith, ground arith, ground arith)

html_escape-Harmless : (s : Bytes) → Harmless (html_escape s)
unfolding html_escape
html_escape-Harmless [] = unfold lacks in (refl, refl, refl, refl)
html_escape-Harmless (c ∷ s) = lacks-escaped c (html_escape s) (html_escape-Harmless s)

escaped_first : (c d : ℕ) (x y : Bytes) → escaped c ++ x ≡ escaped d ++ y → (c ≡ d) × (x ≡ y)
unfolding escaped
escaped_first c d x y h = (ground arith, ground arith)

escaped_some : (c : ℕ) (x : Bytes) → (escaped c ++ x ≡ [] → ⊥)
unfolding escaped
escaped_some c x h = ground arith

html_escape_injective : (s t : Bytes) → html_escape s ≡ html_escape t → s ≡ t
unfolding html_escape
html_escape_injective [] [] h = refl
html_escape_injective [] (d ∷ t) h = absurd (escaped_some d (html_escape t) (sym h))
html_escape_injective (c ∷ s) [] h = absurd (escaped_some c (html_escape s) h)
html_escape_injective (c ∷ s) (d ∷ t) h =
    let (first, rest) = escaped_first c d (html_escape s) (html_escape t) h in
    ap₂ ◌∷◌ first (html_escape_injective s t rest)

-- A text that `htmlEscape` returns holds no `<`, `>`, double or single quote, and two texts
-- have the same escaped text exactly if they are equal.
pub escape_is_safe :
    (s t : Bytes)
    → (lacks b'<' (html_escape s) ≡ true)
      × (lacks b'>' (html_escape s) ≡ true)
      × (lacks b'"' (html_escape s) ≡ true)
      × (lacks 39 (html_escape s) ≡ true)
      × ((html_escape s ≡ html_escape t) ↔ (s ≡ t))
escape_is_safe s t =
    let (lt, gt, quote, single) = html_escape-Harmless s in
    (lt, gt, quote, single, (html_escape_injective s t, ap html_escape))
