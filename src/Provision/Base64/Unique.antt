-- ===== src/Provision/Base64/Unique.antt =====
-- A text that `decodeBase64Exact` accepts is the encoding of the bytes it returns.
use presence_platform.Prelude.{
  IsByte, ℕ, zero, suc, ◌+◌, ◌-◌, ◌*◌, ◌/◌, ◌%◌, ◌≤◌, ◌≡◌, refl, ap, sym, subst, ◌∙◌, true, Option,
  none, some, [], ◌∷◌, ◌++◌, Bytes, length, All, arith,
}
use presence_platform.Provision.Base64.{pads_ok, read_group, group_bytes, join, decode_groups}
use presence_platform.Provision.Base64.Canonical.{encode_base64}
use presence_platform.Provision.Base64.Groups.{
  IsChar, Full, Two, One, group-Full, group-Two, group-One,
}

-- The group and the rest of an accepted text.
record Parts (a b c d : ℕ) (rest bs : Bytes) : Type 0 where
  group : Bytes
  others : Bytes
  group_eq : group_bytes (read_group (a ∷ b ∷ c ∷ d ∷ []) 0 0) ≡ some group
  others_eq : decode_groups rest ≡ some others
  whole_eq : group ++ others ≡ bs

join-some :
    (o p : Option Bytes) {bs : Bytes}
    → join o p ≡ some bs
    → (g : Bytes) × ((r : Bytes) × ((o ≡ some g) × ((p ≡ some r) × (g ++ r ≡ bs))))
unfolding join
join-some (some g) (some r) h = (g, (r, (refl, (refl, ground arith))))
join-some none p h = absurd (ground arith)
join-some (some g) none h = absurd (ground arith)

decode-Parts :
    (a b c d : ℕ) (rest : Bytes) {bs : Bytes}
    → decode_groups (a ∷ b ∷ c ∷ d ∷ rest) ≡ some bs
    → Parts a b c d rest bs
unfolding decode_groups
decode-Parts a b c d rest e =
    let (g, (r, (hg, (hr, whole)))) = join-some _ _ e in
    record { group = g; others = r; group_eq = hg; others_eq = hr; whole_eq = whole }

-- The padding of a text that ends in `pad` many `=`.
pads_four :
    (left a b c d : ℕ) (rest : Bytes)
    → 4 ≤ left
    → pads_ok left (a ∷ b ∷ c ∷ d ∷ rest) ≡ true
    → (IsChar a × (IsChar b × (IsChar c × IsChar d))) × (pads_ok (left - 4) rest ≡ true)
unfolding pads_ok
pads_four zero a b c d rest h e = absurd (omega arith)
pads_four (suc zero) a b c d rest h e = absurd (omega arith)
pads_four (suc (suc zero)) a b c d rest h e = absurd (omega arith)
pads_four (suc (suc (suc zero))) a b c d rest h e = absurd (omega arith)
pads_four (suc (suc (suc (suc left)))) a b c d rest h e =
    let same : suc (suc (suc (suc left))) - 4 ≡ left = omega arith in
    (ground arith, rw same (ground arith))

abbrev Encoded : Bytes → Bytes → Type 0
Encoded text bs = (text ≡ encode_base64 bs) × All IsByte bs

Full-Encoded :
    (a b c d : ℕ) (rest g r : Bytes) {bs : Bytes}
    → Full a b c d g
    → Encoded rest r
    → g ++ r ≡ bs
    → Encoded (a ∷ b ∷ c ∷ d ∷ rest) bs
Full-Encoded a b c d rest g r z (e, bytes) whole =
    let (hx, (hy, hz)) = z.small in
    subst (Encoded (a ∷ b ∷ c ∷ d ∷ rest)) (ap (λ x. x ++ r) z.bytes_eq ∙ whole)
      (unfold encode_base64 in cc (z.a_eq, z.b_eq, z.c_eq, z.d_eq, e), (hx, (hy, (hz, bytes))))

Two-Encoded :
    (a b c : ℕ) (g r : Bytes) {bs : Bytes}
    → Two a b c g
    → r ≡ []
    → g ++ r ≡ bs
    → Encoded (a ∷ b ∷ c ∷ b'=' ∷ []) bs
Two-Encoded a b c g r z none_left whole =
    let (hx, hy) = z.small in
    subst (Encoded (a ∷ b ∷ c ∷ b'=' ∷ []))
      (ap (λ x. x ++ []) z.bytes_eq ∙ ap (λ x. g ++ x) (sym none_left) ∙ whole)
      (unfold encode_base64 in cc (z.a_eq, z.b_eq, z.c_eq), (hx, (hy, tt)))

One-Encoded :
    (a b : ℕ) (g r : Bytes) {bs : Bytes}
    → One a b g
    → r ≡ []
    → g ++ r ≡ bs
    → Encoded (a ∷ b ∷ b'=' ∷ b'=' ∷ []) bs
One-Encoded a b g r z none_left whole =
    subst (Encoded (a ∷ b ∷ b'=' ∷ b'=' ∷ []))
      (ap (λ x. x ++ []) z.bytes_eq ∙ ap (λ x. g ++ x) (sym none_left) ∙ whole)
      (unfold encode_base64 in cc (z.a_eq, z.b_eq), (z.small, tt))

nothing_left : (r : Bytes) → decode_groups [] ≡ some r → r ≡ []
unfolding decode_groups
nothing_left r h = ground arith

last_group :
    (left a b c d : ℕ) (bs : Bytes)
    → 2 ≤ left
    → left ≤ 4
    → pads_ok left (a ∷ b ∷ c ∷ d ∷ []) ≡ true
    → decode_groups (a ∷ b ∷ c ∷ d ∷ []) ≡ some bs
    → Encoded (a ∷ b ∷ c ∷ d ∷ []) bs
unfolding pads_ok
last_group zero a b c d bs lo hi h e = absurd (omega arith)
last_group (suc zero) a b c d bs lo hi h e = absurd (omega arith)
last_group (suc (suc zero)) a b c d bs lo hi h e =
    let pad_c : c ≡ b'=' = ground arith in
    let pad_d : d ≡ b'=' = ground arith in
    let p = decode-Parts a b b'=' b'=' [] (rw (pad_c, pad_d) at e) in
    rw (pad_c, pad_d)
      (One-Encoded a b p.group p.others (group-One a b (ground arith) (ground arith) p.group_eq)
        (nothing_left p.others p.others_eq) p.whole_eq)
last_group (suc (suc (suc zero))) a b c d bs lo hi h e =
    let pad_d : d ≡ b'=' = ground arith in
    let p = decode-Parts a b c b'=' [] (rw pad_d at e) in
    rw pad_d (
      Two-Encoded a b c p.group p.others
        (group-Two a b c (ground arith) (ground arith) (ground arith) p.group_eq)
        (nothing_left p.others p.others_eq) p.whole_eq)
last_group (suc (suc (suc (suc left)))) a b c d bs lo hi h e =
    let p = decode-Parts a b c d [] e in
    let full =
      group-Full a b c d (ground arith) (ground arith) (ground arith) (ground arith) p.group_eq in
    Full-Encoded a b c d [] p.group p.others full
      (unfold encode_base64 in rw (nothing_left p.others p.others_eq) (refl, tt)) p.whole_eq

pub groups-Encoded :
    (left pad : ℕ) (text : Bytes) (bs : Bytes)
    → pad ≤ 2
    → length text ≡ left + pad
    → length text % 4 ≡ 0
    → pads_ok left text ≡ true
    → decode_groups text ≡ some bs
    → Encoded text bs
groups-Encoded left pad [] bs hp hl hm h e =
    rw (nothing_left bs e) (unfold encode_base64 in (refl, tt))
groups-Encoded left pad (a ∷ []) bs hp hl hm h e = absurd (omega arith)
groups-Encoded left pad (a ∷ (b ∷ [])) bs hp hl hm h e = absurd (omega arith)
groups-Encoded left pad (a ∷ (b ∷ (c ∷ []))) bs hp hl hm h e = absurd (omega arith)
groups-Encoded left pad (a ∷ (b ∷ (c ∷ (d ∷ [])))) bs hp hl hm h e =
    last_group left a b c d bs (omega arith) (omega arith) h e
groups-Encoded left pad (a ∷ (b ∷ (c ∷ (d ∷ (x ∷ rest))))) bs hp hl hm h e =
    let ((ha, (hb, (hc, hd))), more) = pads_four left a b c d (x ∷ rest) (omega arith) h in
    let p = decode-Parts a b c d (x ∷ rest) e in
    Full-Encoded a b c d (x ∷ rest) p.group p.others (group-Full a b c d ha hb hc hd p.group_eq)
      (groups-Encoded (left - 4) pad (x ∷ rest) p.others hp (omega arith) (omega arith) more
        p.others_eq)
      p.whole_eq

pub length-encode : (bs : Bytes) → length (encode_base64 bs) ≡ (length bs + 2) / 3 * 4
unfolding encode_base64
length-encode [] = omega arith
length-encode (a ∷ []) = omega arith
length-encode (a ∷ (b ∷ [])) = omega arith
length-encode (a ∷ (b ∷ (c ∷ bs))) = omega (arith, length-encode bs)
