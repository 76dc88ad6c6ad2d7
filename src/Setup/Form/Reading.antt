-- ===== src/Setup/Form/Reading.antt =====
-- What `parseWifiForm` reads from the body that a browser sends.
use presence_platform.Prelude.{
  lacks, ℕ, ◌≡◌, ◌≢◌, refl, ap, ◌∙◌, Bool, true, false, Option, none, some, [], ◌∷◌, ◌++◌, Bytes,
  bytes_eq, codes, length, ==_ne, arith,
}
use presence_platform.Setup.Form.{
  FormError, ok, malformed, duplicate, missing, field_too_long, Fields, empty_form, no_fields,
  pieces, cut, percent_decode, read_pair, set_field, set_once, read_piece, read_pieces, token_of,
  complete, finish_form, parse_wifi_form, form_field_cap, put, plain, hex_pair, hex_value,
}

pieces_one : (sep : ℕ) (xs : Bytes) → lacks sep xs ≡ true → pieces sep xs ≡ (xs, [])
unfolding pieces lacks
pieces_one sep [] h = refl
pieces_one sep (c ∷ xs) h = ground (arith, pieces_one sep xs)

pieces-append :
    (sep : ℕ) (xs ys : Bytes)
    → lacks sep xs ≡ true
    → pieces sep (xs ++ sep ∷ ys) ≡ (xs, (pieces sep ys).0 ∷ (pieces sep ys).1)
unfolding pieces lacks
pieces-append sep [] ys h = ground arith
pieces-append sep (c ∷ xs) ys h = ground (arith, pieces-append sep xs ys)

ssid_key : percent_decode 32 (codes "ssid") ≡ some (codes "ssid")
unfolding percent_decode put plain hex_pair hex_value
ssid_key = refl

password_key : percent_decode 32 (codes "password") ≡ some (codes "password")
unfolding percent_decode put plain hex_pair hex_value
password_key = refl

ssid_piece :
    (t s : Bytes)
    → percent_decode form_field_cap t ≡ some s
    → read_piece (codes "ssid=" ++ t) no_fields ≡ (ok, record no_fields { ssid = some s })
unfolding read_piece cut read_pair set_field bytes_eq set_once
ssid_piece t s e = rw (==_ne (length (codes "ssid=" ++ t)) 0 (omega arith), ssid_key, e) refl

password_piece :
    (u p s : Bytes)
    → percent_decode form_field_cap u ≡ some p
    → read_piece (codes "password=" ++ u) (record no_fields { ssid = some s })
      ≡ (ok, record no_fields { ssid = some s; password = some p })
unfolding read_piece cut read_pair set_field bytes_eq set_once
password_piece u p s e =
    rw (==_ne (length (codes "password=" ++ u)) 0 (omega arith), password_key, e) refl

lacks_key : (t : Bytes) → lacks b'&' t ≡ true → lacks b'&' (codes "ssid=" ++ t) ≡ true
unfolding lacks
lacks_key t h = h

lacks_key_password : (t : Bytes) → lacks b'&' t ≡ true → lacks b'&' (codes "password=" ++ t) ≡ true
unfolding lacks
lacks_key_password t h = h

-- The two fields as a browser sends them.
abbrev pub form_body : Bytes → Bytes → Bytes
form_body t u = (codes "ssid=" ++ t) ++ b'&' ∷ (codes "password=" ++ u)

body_pieces :
    (t u : Bytes)
    → lacks b'&' t ≡ true
    → lacks b'&' u ≡ true
    → pieces b'&' (form_body t u) ≡ (codes "ssid=" ++ t, (codes "password=" ++ u) ∷ [])
body_pieces t u ht hu =
    pieces-append b'&' (codes "ssid=" ++ t) (codes "password=" ++ u) (lacks_key t ht)
    ∙ ap (λ z. (codes "ssid=" ++ t, z.0 ∷ z.1))
        (pieces_one b'&' (codes "password=" ++ u) (lacks_key_password u hu))

read_body :
    (t u s p : Bytes)
    → percent_decode form_field_cap t ≡ some s
    → percent_decode form_field_cap u ≡ some p
    → read_pieces ((codes "ssid=" ++ t) ∷ (codes "password=" ++ u) ∷ []) (ok, no_fields)
      ≡ (ok, record no_fields { ssid = some s; password = some p })
unfolding read_pieces
read_body t u s p et eu =
    ap (read_pieces ((codes "password=" ++ u) ∷ [])) (ssid_piece t s et)
    ∙ ap (read_pieces []) (password_piece u p s eu)

-- A body of the two fields `ssid=` and `password=`, whose values hold no `&` and decode within
-- the cap, is read as a form with the decoded values and no token.
pub form_read :
    (t u s p : Bytes)
    → lacks b'&' t ≡ true
    → lacks b'&' u ≡ true
    → percent_decode form_field_cap t ≡ some s
    → percent_decode form_field_cap u ≡ some p
    → parse_wifi_form (form_body t u)
      ≡ (ok, record { ssid = s; password = p; token = []; have_token = false })
unfolding parse_wifi_form finish_form complete token_of
form_read t u s p ht hu et eu =
    ap (λ z. finish_form (read_pieces (z.0 ∷ z.1) (ok, no_fields))) (body_pieces t u ht hu)
    ∙ ap finish_form (read_body t u s p et eu)

complete_or_empty :
    (a b : Option Bytes) (t : Bytes × Bool)
    → (complete a b t).0 ≢ ok
    → (complete a b t).1 ≡ empty_form
unfolding complete
complete_or_empty (some s) (some p) t h = absurd (h refl)
complete_or_empty (some s) none t h = refl
complete_or_empty none b t h = refl

finish_or_empty : (r : FormError × Fields) → (finish_form r).0 ≢ ok → (finish_form r).1 ≡ empty_form
unfolding finish_form
finish_or_empty (ok, f) h = complete_or_empty f.ssid f.password (token_of f.token) h
finish_or_empty (malformed, f) h = refl
finish_or_empty (duplicate, f) h = refl
finish_or_empty (missing, f) h = refl
finish_or_empty (field_too_long, f) h = refl

-- Whatever body is refused, with whatever error, the form that comes back is empty: no name, no
-- password, no token.
pub refused_form_empty :
    (body : Bytes) → (parse_wifi_form body).0 ≢ ok → (parse_wifi_form body).1 ≡ empty_form
unfolding parse_wifi_form
refused_form_empty body h =
    finish_or_empty (read_pieces ((pieces b'&' body).0 ∷ (pieces b'&' body).1) (ok, no_fields)) h
