-- ===== src/Setup/Portal/Stores.antt =====
-- What the portal's stores hold after a save that was checked.
use presence_platform.Prelude.{
  ◌≡◌, ◌≢◌, ap, ap₂, ◌∙◌, Bool, true, Option, none, some, Bytes, bytes_eq_sound, Option-cases, inl,
  inr, arith,
}
use presence_platform.Provision.Token.{
  ProvisionTokenRecord, TokenError, make_token_record, load_usable_token,
}
use presence_platform.Provision.Token.Stored.{usable_if_ok}
use presence_platform.Setup.Fields.{WifiCredentials}
use presence_platform.Setup.Pages.{TokenField}
use presence_platform.Setup.Portal.{
  Store, opened, saved, same_token, same_credentials, reads_back, save_checked, TokenStep,
  keep_token, save_token, refuse_token, checked_token, token_step,
}

pub same_token-eq : (a b : ProvisionTokenRecord) → same_token a b ≡ true → a ≡ b
unfolding same_token
same_token-eq a b h =
    let magic : a.magic ≡ b.magic = ground arith in
    let token = bytes_eq_sound a.token b.token (ground arith) in
    ap₂ (λ m t. record { magic = m; token = t }) magic token

pub same_credentials-eq : (a b : WifiCredentials) → same_credentials a b ≡ true → a ≡ b
unfolding same_credentials
same_credentials-eq a b h =
    let magic : a.magic ≡ b.magic = ground arith in
    let ssid = bytes_eq_sound a.ssid b.ssid (ground arith) in
    let password = bytes_eq_sound a.password b.password (ground arith) in cc (magic, ssid, password)

pub opened_not_saved : opened ≢ saved
opened_not_saved h = ground arith

checked_token-ok :
    (r : TokenError × ProvisionTokenRecord) (tok : ProvisionTokenRecord)
    → checked_token r ≡ save_token tok
    → r ≡ (TokenError.ok, tok)
unfolding checked_token
checked_token-ok (TokenError.ok, r) tok h = ground arith
checked_token-ok (TokenError.missing, r) tok h = absurd (ground arith)
checked_token-ok (TokenError.bad_length, r) tok h = absurd (ground arith)
checked_token-ok (TokenError.bad_hex, r) tok h = absurd (ground arith)

checked_token-usable :
    (typed : Bytes) (tok : ProvisionTokenRecord)
    → checked_token (make_token_record typed) ≡ save_token tok
    → load_usable_token (some tok) ≡ (true, tok)
checked_token-usable typed tok h =
    usable_if_ok typed tok (checked_token-ok (make_token_record typed) tok h)

pub token_step-usable :
    (field : TokenField) (typed : Bytes) (tok : ProvisionTokenRecord)
    → token_step field typed ≡ save_token tok
    → load_usable_token (some tok) ≡ (true, tok)
unfolding token_step
token_step-usable TokenField.hidden typed tok h = absurd (ground arith)
token_step-usable TokenField.required typed tok h = checked_token-usable typed tok h
token_step-usable TokenField.optional typed tok h = checked_token-usable typed tok (ground arith)

-- What a store loads; a null store loads nothing.
unfoldable pub loaded : {S R : Type 0} → Store S R → Option S → Option R
loaded ops none = none
loaded ops (some s) = ops.load s

pub save_checked-true :
    {S R : Type 0} (ops : Store S R) (same : R → R → Bool) (s : Option S) (r : R)
    → ((a b : R) → same a b ≡ true → a ≡ b)
    → (save_checked ops same s r).0 ≡ true
    → loaded ops (save_checked ops same s r).1 ≡ some r
unfolding loaded save_checked
save_checked-true ops same none r eq h = absurd (ground arith)
save_checked-true ops same (some s) r eq h = elim (Option-cases (ops.load (ops.save s r).1)) [
  | inl e ↦ absurd (unfold reads_back in ground arith)
  | inr (back, e) ↦
      let checked : same back r ≡ true = unfold reads_back in ground arith in
      e ∙ ap some (eq back r checked)
]

-- The step that a saved token took: it is loaded again, and the provisioning task can use it.
unfoldable pub TokenDone :
    {S : Type 0} → Store S ProvisionTokenRecord → TokenStep → Option S → Option S → Type 0
TokenDone ops keep_token before after = after ≡ before
TokenDone ops (save_token tok) before after =
    (loaded ops after ≡ some tok) × (load_usable_token (loaded ops after) ≡ (true, tok))
TokenDone ops (refuse_token e) before after = ⊥
