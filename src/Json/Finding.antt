-- ===== src/Json/Finding.antt =====
-- `jsonValueStart` finds the value of a key in a printed object.
use presence_platform.Prelude.{
  ℕ, zero, suc, ◌<◌, ◌≡◌, ◌≢◌, ◌⊎◌, inl, inr, refl, sym, ap, ◌∙◌, subst, true, false, Option, none,
  some, [], ◌∷◌, ◌++◌, append_assoc, Bytes, bytes_eq, bytes_eq_sound, codes, length, lacks,
  if◌then◌else◌, Bool-cases, arith,
}
use presence_platform.Decimal.{json_int}
use presence_platform.Decimal.Laws.{lacks-json_int}
use presence_platform.Json.{is_space, skip_spaces, after_prefix, quoted, after_colon, find_value}
use presence_platform.Json.Printing.{
  Value, number, flag, text, Fields, print_value, print_fields, print_object, lookup, is_plain,
  all_plain, plain_value, plain_fields, is_key,
}

plain_lacks : (s : Bytes) → all_plain s ≡ true → lacks b'"' s ≡ true
unfolding all_plain is_plain lacks
plain_lacks [] h = refl
plain_lacks (c ∷ s) h = ground (arith, plain_lacks s)

module _ (key : Bytes) where
  abbrev needle : Bytes
  needle = quoted key

  pass : (c : ℕ) (cs : Bytes) → c ≢ b'"' → find_value needle 0 (c ∷ cs) ≡ find_value needle 0 cs
  unfolding find_value after_prefix quoted
  pass c cs h = ground arith

  pass_all :
      (xs ys : Bytes)
      → lacks b'"' xs ≡ true
      → find_value needle 0 (xs ++ ys) ≡ find_value needle 0 ys
  unfolding lacks
  pass_all [] ys h = refl
  pass_all (c ∷ xs) ys h = pass c (xs ++ ys) (ground arith) ∙ pass_all xs ys (ground arith)

  skipped :
      (xs ys : Bytes) (n : ℕ)
      → length xs ≡ n
      → find_value needle n (xs ++ ys) ≡ find_value needle 0 ys
  unfolding find_value
  skipped [] ys zero h = refl
  skipped [] ys (suc n) h = absurd (omega arith)
  skipped (c ∷ xs) ys zero h = absurd (omega arith)
  skipped (c ∷ xs) ys (suc n) h = skipped xs ys n (omega arith)

-- A key's text with its closing quote is a prefix of another's only if they are the same.
after_prefix-quoted :
    (key s ys : Bytes)
    → lacks b'"' key ≡ true
    → lacks b'"' s ≡ true
    → after_prefix (key ++ b'"' ∷ []) (s ++ b'"' ∷ ys) ≡ (if bytes_eq key s then some ys else none)
unfolding after_prefix lacks bytes_eq
after_prefix-quoted [] [] ys h k = refl
after_prefix-quoted [] (c ∷ s) ys h k = ground arith
after_prefix-quoted (d ∷ key) [] ys h k = ground arith
after_prefix-quoted (d ∷ key) (c ∷ s) ys h k = ground (arith, after_prefix-quoted key s ys)

key_lacks : (key : Bytes) → is_key key ≡ true → lacks b'"' key ≡ true
unfolding is_key lacks
key_lacks [] h = refl
key_lacks (a ∷ letters) h = ground (arith, plain_lacks letters)

-- A byte that no key begins with.
abbrev Ends : ℕ → Type 0
Ends c = (c < b'a') ⊎ (b'z' < c)

-- The two bytes that end a field.
abbrev pub Closes : ℕ → Type 0
Closes c = (c ≡ b',') ⊎ (c ≡ b'}')

closing :
    (key : Bytes) (c : ℕ) (ys : Bytes)
    → is_key key ≡ true
    → Ends c
    → find_value (quoted key) 0 (b'"' ∷ c ∷ ys) ≡ find_value (quoted key) 0 (c ∷ ys)
unfolding find_value after_prefix quoted is_key
closing [] c ys h e = absurd (ground arith)
closing (a ∷ letters) c ys h (inl e) = ground arith
closing (a ∷ letters) c ys h (inr e) = ground arith

module _ (key : Bytes) where
  open_miss :
      (t : Bytes)
      → after_prefix (key ++ b'"' ∷ []) t ≡ none
      → find_value (quoted key) 0 (b'"' ∷ t) ≡ find_value (quoted key) 0 t
  unfolding find_value after_prefix quoted
  open_miss t h = ground arith

  open_other :
      (t rest : Bytes)
      → after_prefix (key ++ b'"' ∷ []) t ≡ some rest
      → after_colon rest ≡ none
      → find_value (quoted key) 0 (b'"' ∷ t) ≡ find_value (quoted key) (length (key ++ b'"' ∷ [])) t
  unfolding find_value after_prefix quoted
  open_other t rest h k = ground arith

  open_found :
      (t rest v : Bytes)
      → after_prefix (key ++ b'"' ∷ []) t ≡ some rest
      → after_colon rest ≡ some v
      → find_value (quoted key) 0 (b'"' ∷ t) ≡ some v
  unfolding find_value after_prefix quoted
  open_found t rest v h k = ground arith

colon_value : (ys : Bytes) → after_colon (b':' ∷ ys) ≡ some (skip_spaces ys)
unfolding after_colon skip_spaces is_space
colon_value ys = refl

quoted-append : (s ys : Bytes) → quoted s ++ ys ≡ b'"' ∷ (s ++ b'"' ∷ ys)
unfolding quoted
quoted-append s ys = ap (◌∷◌ b'"') (append_assoc s (b'"' ∷ []) ys)

unspaced :
    (xs : Bytes) (c : ℕ) (ys : Bytes)
    → lacks 9 xs ≡ true
    → lacks 10 xs ≡ true
    → lacks 13 xs ≡ true
    → lacks b' ' xs ≡ true
    → is_space c ≡ false
    → skip_spaces (xs ++ c ∷ ys) ≡ xs ++ c ∷ ys
unfolding skip_spaces lacks is_space
unspaced [] c ys t n r b h = ground arith
unspaced (x ∷ xs) c ys t n r b h = ground arith

module _ (key : Bytes) (k : is_key key ≡ true) where
  -- Another quoted text, or the key itself as a value, is passed.
  past_text :
      (s : Bytes) (c : ℕ) (ys : Bytes)
      → all_plain s ≡ true
      → Ends c
      → after_colon (c ∷ ys) ≡ none
      → find_value (quoted key) 0 (quoted s ++ c ∷ ys) ≡ find_value (quoted key) 0 (c ∷ ys)
  past_text s c ys plain e stop =
      let first = after_prefix-quoted key s (c ∷ ys) (key_lacks key k) (plain_lacks s plain) in
      ap (find_value (quoted key) 0) (quoted-append s (c ∷ ys))
      ∙ elim (Bool-cases (bytes_eq key s)) [
        | inl same ↦
            open_other key (s ++ b'"' ∷ c ∷ ys) (c ∷ ys) (rw same at first) stop
            ∙ ap (find_value (quoted key) (length (key ++ b'"' ∷ [])))
                (sym (append_assoc s (b'"' ∷ []) (c ∷ ys)))
            ∙ skipped key (s ++ b'"' ∷ []) (c ∷ ys) (length (key ++ b'"' ∷ []))
                (ap (λ x. length (x ++ b'"' ∷ [])) (sym (bytes_eq_sound key s same)))
        | inr other ↦
            open_miss key (s ++ b'"' ∷ c ∷ ys) (rw other at first)
            ∙ pass_all key s (b'"' ∷ c ∷ ys) (plain_lacks s plain)
            ∙ closing key c ys k e
      ]

  -- A key in front of its value.
  at_key :
      (s ys : Bytes)
      → all_plain s ≡ true
      → find_value (quoted key) 0 (quoted s ++ b':' ∷ ys)
        ≡ (if bytes_eq key s then some (skip_spaces ys) else find_value (quoted key) 0 ys)
  at_key s ys plain =
      let first = after_prefix-quoted key s (b':' ∷ ys) (key_lacks key k) (plain_lacks s plain) in
      ap (find_value (quoted key) 0) (quoted-append s (b':' ∷ ys))
      ∙ elim (Bool-cases (bytes_eq key s)) [
        | inl same ↦ rw same (
            open_found key (s ++ b'"' ∷ b':' ∷ ys) (b':' ∷ ys) (skip_spaces ys) (rw same at first)
              (colon_value ys))
        | inr other ↦ rw other (
            open_miss key (s ++ b'"' ∷ b':' ∷ ys) (rw other at first)
            ∙ pass_all key s (b'"' ∷ b':' ∷ ys) (plain_lacks s plain)
            ∙ closing key b':' ys k (inl (omega arith))
            ∙ pass key b':' ys (omega arith))
      ]

  past_value :
      (v : Value) (c : ℕ) (ys : Bytes)
      → plain_value v ≡ true
      → Ends c
      → after_colon (c ∷ ys) ≡ none
      → find_value (quoted key) 0 (print_value v ++ c ∷ ys) ≡ find_value (quoted key) 0 (c ∷ ys)
  unfolding print_value plain_value lacks
  past_value (number w) c ys h e stop =
      pass_all key (json_int w) (c ∷ ys) (lacks-json_int b'"' w (inl (omega arith)))
  past_value (flag true) c ys h e stop = pass_all key (codes "true") (c ∷ ys) refl
  past_value (flag false) c ys h e stop = pass_all key (codes "false") (c ∷ ys) refl
  past_value (text s) c ys h e stop = past_text s c ys h e stop

  -- What is found, before the byte behind it: the value of the first field with the key, if there is one.
  pub record Found (fs : Fields) (r : Option Bytes) : Type 0 where
    pub missing : lookup key fs ≡ none → r ≡ none
    pub present :
        (v : Value)
        → lookup key fs ≡ some v
        → (c : ℕ) × ((ys : Bytes) × (Closes c × (r ≡ some (print_value v ++ c ∷ ys))))

  no_colon_comma : (ys : Bytes) → after_colon (b',' ∷ ys) ≡ none
  unfolding after_colon skip_spaces is_space
  no_colon_comma ys = refl

  no_colon_brace : (ys : Bytes) → after_colon (b'}' ∷ ys) ≡ none
  unfolding after_colon skip_spaces is_space
  no_colon_brace ys = refl

  skip_value :
      (v : Value) (c : ℕ) (ys : Bytes)
      → is_space c ≡ false
      → skip_spaces (print_value v ++ c ∷ ys) ≡ print_value v ++ c ∷ ys
  unfolding print_value skip_spaces is_space quoted
  skip_value (number w) c ys h =
      unspaced (json_int w) c ys (lacks-json_int 9 w (inl (omega arith)))
        (lacks-json_int 10 w (inl (omega arith))) (lacks-json_int 13 w (inl (omega arith)))
        (lacks-json_int b' ' w (inl (omega arith))) h
  skip_value (flag true) c ys h = refl
  skip_value (flag false) c ys h = refl
  skip_value (text s) c ys h = refl

  -- One field, before a byte `c` that ends it.
  field_step :
      (s : Bytes) (v : Value) (c : ℕ) (ys : Bytes)
      → all_plain s ≡ true
      → plain_value v ≡ true
      → Ends c
      → is_space c ≡ false
      → after_colon (c ∷ ys) ≡ none
      → find_value (quoted key) 0 (quoted s ++ b':' ∷ (print_value v ++ c ∷ ys)) ≡ (
          if bytes_eq key s
          then some (print_value v ++ c ∷ ys)
          else find_value (quoted key) 0 (c ∷ ys))
  field_step s v c ys hs hv e unspaced stop =
      at_key s (print_value v ++ c ∷ ys) hs
      ∙ ap
          (λ x.
            if bytes_eq key s then some x else find_value (quoted key) 0 (print_value v ++ c ∷ ys))
          (skip_value v c ys unspaced)
      ∙ ap (λ x. if bytes_eq key s then some (print_value v ++ c ∷ ys) else x)
          (past_value v c ys hv e stop)

  Found-step :
      (s : Bytes) (v : Value) (c : ℕ) (ys : Bytes) (fs : Fields) (r : Option Bytes)
      → Closes c
      → Found fs r
      → Found ((s, v) ∷ fs) (if bytes_eq key s then some (print_value v ++ c ∷ ys) else r)
  unfolding lookup
  Found-step s v c ys fs r e z = elim (Bool-cases (bytes_eq key s)) [
    | inl same ↦ rw same (record {
      missing = λ h. absurd (ground arith);
      present = λ w h.
          let same_value : v ≡ w = ground arith in
          (c, (ys, (e, ap (λ x. some (print_value x ++ c ∷ ys)) same_value)));
    })
    | inr other ↦ rw other (record {
      missing = λ h. z.missing (ground arith);
      present = λ w h. z.present w (ground arith);
    })
  ]

  fields-Found :
      (fs : Fields)
      → plain_fields fs ≡ true
      → Found fs (find_value (quoted key) 0 (print_fields fs))
  unfolding print_fields plain_fields find_value is_space
  fields-Found [] h = record {
    missing = λ e. pass key b'}' [] (omega arith);
    present = λ v e. absurd (unfold lookup in ground arith);
  }
  fields-Found ((s, v) ∷ []) h =
      let rest : Found [] (find_value (quoted key) 0 (b'}' ∷ [])) = fields-Found [] refl in
      subst (Found ((s, v) ∷ []))
        (sym (
          field_step s v b'}' [] (ground arith) (ground arith) (inr (omega arith)) refl
            (no_colon_brace [])))
        (Found-step s v b'}' [] [] _ (inr refl) rest)
  fields-Found ((s, v) ∷ (f ∷ fs)) h =
      let t = print_fields (f ∷ fs) in
      let rest = fields-Found (f ∷ fs) (ground arith) in
      let here : Found (f ∷ fs) (find_value (quoted key) 0 (b',' ∷ t)) =
        subst (Found (f ∷ fs)) (sym (pass key b',' t (omega arith))) rest in
      subst (Found ((s, v) ∷ (f ∷ fs)))
        (sym (
          field_step s v b',' t (ground arith) (ground arith) (inl (omega arith)) refl
            (no_colon_comma t)))
        (Found-step s v b',' t (f ∷ fs) _ (inl refl) here)

  pub object-Found :
      (fs : Fields)
      → plain_fields fs ≡ true
      → Found fs (find_value (quoted key) 0 (print_object fs))
  unfolding print_object
  object-Found fs h =
      subst (Found fs) (sym (pass key b'{' (print_fields fs) (omega arith))) (fields-Found fs h)
