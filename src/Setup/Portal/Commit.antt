-- ===== src/Setup/Portal/Commit.antt =====
-- When the portal reports that the settings are saved, they are.
use presence_platform.Prelude.{
  ℕ, ◌≡◌, refl, ap, sym, ◌∙◌, subst, Bool, true, false, some, Bytes, arith,
}
use presence_platform.Provision.Token.{ProvisionTokenRecord, load_usable_token}
use presence_platform.Setup.Access.{PortalRoute, route_portal}
use presence_platform.Setup.Fields.{
  WifiFieldError, is_ok, WifiCredentials, make_credentials, load_usable_credentials,
}
use presence_platform.Setup.Fields.Stored.{stored_usable}
use presence_platform.Setup.Form.{FormError, WifiForm, parse_wifi_form}
use presence_platform.Setup.Http.{HttpRequest, HttpParse}
use presence_platform.Setup.Portal.{
  Store, opened, saved, WifiPortal, same_token, same_credentials, save_checked, TokenStep,
  keep_token, save_token, refuse_token, token_step, finish_save, store_credentials, store_all,
  save_fields, save_form, save_request, answer, is_shut, saved_page, handle_open, handle,
}
use presence_platform.Setup.Portal.Stores.{
  opened_not_saved, loaded, TokenDone, same_token-eq, same_credentials-eq, token_step-usable,
  save_checked-true,
}

module _ {C T : Type 0} (wifi : Store C WifiCredentials)
    (tokens : Store T ProvisionTokenRecord) where
  finish_save-saved :
      (ssid : Bytes) (now_ms : ℕ) (b : Bool) (p : WifiPortal C T)
      → p.state ≡ opened
      → (finish_save wifi tokens ssid now_ms b p).1.state ≡ saved
      → (b ≡ true)
        × (finish_save wifi tokens ssid now_ms b p).1
          ≡ record p { saved_ssid = ssid; saved_ms = now_ms; state = saved }
  unfolding finish_save
  finish_save-saved ssid now_ms true p o h = (refl, refl)
  finish_save-saved ssid now_ms false p o h = absurd (opened_not_saved (sym o ∙ h))

  -- The portal after the credentials are stored.
  StoredCredentials : Bytes → WifiCredentials → WifiPortal C T → WifiPortal C T → Type 0
  StoredCredentials ssid creds p q =
      (loaded wifi q.store ≡ some creds) × (q.saved_ssid ≡ ssid) × (q.token_store ≡ p.token_store)

  store_credentials-saved :
      (ssid : Bytes) (now_ms : ℕ) (creds : WifiCredentials) (b : Bool) (p : WifiPortal C T)
      → p.state ≡ opened
      → (store_credentials wifi tokens ssid now_ms creds b p).1.state ≡ saved
      → (b ≡ true)
        × StoredCredentials ssid creds p (store_credentials wifi tokens ssid now_ms creds b p).1
  unfolding store_credentials StoredCredentials
  store_credentials-saved ssid now_ms creds false p o h =
      absurd (ground (arith, (finish_save-saved ssid now_ms false p o h).0))
  store_credentials-saved ssid now_ms creds true p o h =
      let (ok, same) =
        finish_save-saved ssid now_ms (save_checked wifi same_credentials p.store creds).0
          (record p { store = (save_checked wifi same_credentials p.store creds).1 }) o h in
      let store = save_checked-true wifi same_credentials p.store creds same_credentials-eq ok in
      (
        refl,
        (
          ap (λ q. loaded wifi q.store) same ∙ store,
          ap (λ q. q.saved_ssid) same,
          ap (λ q. q.token_store) same,
        ),
      )

  -- The portal after all of a form is stored.
  StoredAll : Bytes → WifiCredentials → TokenStep → WifiPortal C T → WifiPortal C T → Type 0
  StoredAll ssid creds step p q =
      (loaded wifi q.store ≡ some creds)
      × (q.saved_ssid ≡ ssid)
      × TokenDone tokens step p.token_store q.token_store

  store_all-saved :
      (ssid : Bytes) (now_ms : ℕ) (creds : WifiCredentials) (token : Bytes) (p : WifiPortal C T)
      → p.state ≡ opened
      → (step : TokenStep) → token_step p.token_field token ≡ step
      → (store_all wifi tokens ssid now_ms creds step p).1.state ≡ saved
      → StoredAll ssid creds step p (store_all wifi tokens ssid now_ms creds step p).1
  unfolding store_all StoredAll StoredCredentials TokenDone
  store_all-saved ssid now_ms creds token p o keep_token e h =
      let (_, all) = store_credentials-saved ssid now_ms creds true p o h in all
  store_all-saved ssid now_ms creds token p o (refuse_token x) e h =
      absurd (opened_not_saved (sym o ∙ h))
  store_all-saved ssid now_ms creds token p o (save_token tok) e h =
      let after = (save_checked tokens same_token p.token_store tok).1 in
      let (ok, (store, name, kept)) =
        store_credentials-saved ssid now_ms creds
          (save_checked tokens same_token p.token_store tok).0 (record p { token_store = after }) o
          h in
      let back =
        ap (loaded tokens) kept
        ∙ save_checked-true tokens same_token p.token_store tok same_token-eq ok in
      (store, name, (back, ap load_usable_token back ∙ token_step-usable p.token_field token tok e))

  -- A form whose fields are stored.
  Kept : WifiForm → WifiPortal C T → WifiPortal C T → Type 0
  Kept form p q =
      (creds : WifiCredentials) × (make_credentials form.ssid form.password
        ≡ (WifiFieldError.ok, creds))
      × StoredAll form.ssid creds (token_step p.token_field form.token) p q

  save_fields-saved :
      (form : WifiForm) (now_ms : ℕ) (r : WifiFieldError × WifiCredentials) (p : WifiPortal C T)
      → make_credentials form.ssid form.password ≡ r
      → p.state ≡ opened
      → (save_fields wifi tokens form now_ms r p).1.state ≡ saved
      → Kept form p (save_fields wifi tokens form now_ms r p).1
  unfolding save_fields Kept
  save_fields-saved form now_ms (WifiFieldError.ok, creds) p made o h =
      (creds, made, store_all-saved form.ssid now_ms creds form.token p o _ refl h)
  save_fields-saved form now_ms (WifiFieldError.ssid_missing, creds) p made o h =
      absurd (opened_not_saved (sym o ∙ h))
  save_fields-saved form now_ms (WifiFieldError.ssid_too_long, creds) p made o h =
      absurd (opened_not_saved (sym o ∙ h))
  save_fields-saved form now_ms (WifiFieldError.ssid_bad_byte, creds) p made o h =
      absurd (opened_not_saved (sym o ∙ h))
  save_fields-saved form now_ms (WifiFieldError.password_too_short, creds) p made o h =
      absurd (opened_not_saved (sym o ∙ h))
  save_fields-saved form now_ms (WifiFieldError.password_too_long, creds) p made o h =
      absurd (opened_not_saved (sym o ∙ h))
  save_fields-saved form now_ms (WifiFieldError.password_bad_byte, creds) p made o h =
      absurd (opened_not_saved (sym o ∙ h))
  save_fields-saved form now_ms (WifiFieldError.password_bad_hex, creds) p made o h =
      absurd (opened_not_saved (sym o ∙ h))

  Committed : FormError × WifiForm → WifiPortal C T → WifiPortal C T → Type 0
  Committed r p q = (form : WifiForm) × (r ≡ (FormError.ok, form)) × Kept form p q

  save_form-saved :
      (now_ms : ℕ) (r : FormError × WifiForm) (p : WifiPortal C T)
      → p.state ≡ opened
      → (save_form wifi tokens now_ms r p).1.state ≡ saved
      → Committed r p (save_form wifi tokens now_ms r p).1
  unfolding save_form Committed
  save_form-saved now_ms (FormError.ok, form) p o h = (
    form,
    refl,
    save_fields-saved form now_ms (make_credentials form.ssid form.password) p refl o h,
  )
  save_form-saved now_ms (FormError.malformed, form) p o h = absurd (opened_not_saved (sym o ∙ h))
  save_form-saved now_ms (FormError.duplicate, form) p o h = absurd (opened_not_saved (sym o ∙ h))
  save_form-saved now_ms (FormError.missing, form) p o h = absurd (opened_not_saved (sym o ∙ h))
  save_form-saved now_ms (FormError.field_too_long, form) p o h =
      absurd (opened_not_saved (sym o ∙ h))

  save_request-saved :
      (req : HttpRequest) (now_ms : ℕ) (p : WifiPortal C T)
      → p.state ≡ opened
      → (save_request wifi tokens req now_ms p).1.state ≡ saved
      → Committed (parse_wifi_form req.body) p (save_request wifi tokens req now_ms p).1
  save_request-saved req now_ms p o h =
      let same : save_request wifi tokens req now_ms p
          ≡ save_form wifi tokens now_ms (parse_wifi_form req.body) p =
        unfold save_request in
        ap
          (λ s. elim s [
            | saved ↦ (saved_page p true, p)
            | _ ↦ save_form wifi tokens now_ms (parse_wifi_form req.body) p
          ])
          o in
      let all =
        save_form-saved now_ms (parse_wifi_form req.body) p o
          (sym (ap (λ r. r.1.state) same) ∙ h) in
      subst (λ r. Committed (parse_wifi_form req.body) p r.1) (sym same) all

  answer-saved :
      (route : PortalRoute) (req : HttpRequest) (now_ms : ℕ) (p : WifiPortal C T)
      → p.state ≡ opened
      → (answer wifi tokens route req now_ms p).1.state ≡ saved
      → (route ≡ PortalRoute.save)
        × Committed (parse_wifi_form req.body) p (answer wifi tokens route req now_ms p).1
  unfolding answer
  answer-saved PortalRoute.form req now_ms p o h = absurd (opened_not_saved (sym o ∙ h))
  answer-saved PortalRoute.redirect req now_ms p o h = absurd (opened_not_saved (sym o ∙ h))
  answer-saved PortalRoute.not_found req now_ms p o h = absurd (opened_not_saved (sym o ∙ h))
  answer-saved PortalRoute.method_not_allowed req now_ms p o h =
      absurd (opened_not_saved (sym o ∙ h))
  answer-saved PortalRoute.save req now_ms p o h = (refl, save_request-saved req now_ms p o h)

  handle_opened :
      (parsed : HttpParse) (now_ms : ℕ) (p : WifiPortal C T)
      → p.state ≡ opened
      → handle wifi tokens parsed now_ms p ≡ handle_open wifi tokens parsed now_ms p
  unfolding handle
  handle_opened parsed now_ms p o =
      let open_now : is_shut wifi tokens p.state ≡ false =
        unfold is_shut in ap (λ s. is_shut wifi tokens s) o in
      rw open_now refl

  -- A request that the portal answered by storing its form.
  Posted : HttpParse → WifiPortal C T → WifiPortal C T → Type 0
  Posted parsed p q =
      (req : HttpRequest) × (parsed ≡ HttpParse.ok req)
      × (route_portal req.method req.path ≡ PortalRoute.save)
      × Committed (parse_wifi_form req.body) p q

  handle_open-saved :
      (parsed : HttpParse) (now_ms : ℕ) (p : WifiPortal C T)
      → p.state ≡ opened
      → (handle_open wifi tokens parsed now_ms p).1.state ≡ saved
      → Posted parsed p (handle_open wifi tokens parsed now_ms p).1
  unfolding handle_open Posted
  handle_open-saved HttpParse.incomplete now_ms p o h = absurd (opened_not_saved (sym o ∙ h))
  handle_open-saved HttpParse.bad now_ms p o h = absurd (opened_not_saved (sym o ∙ h))
  handle_open-saved HttpParse.too_large now_ms p o h = absurd (opened_not_saved (sym o ∙ h))
  handle_open-saved (HttpParse.ok req) now_ms p o h =
      let (route, all) = answer-saved (route_portal req.method req.path) req now_ms p o h in
      (req, refl, route, all)

  pub saved_means_stored :
      (parsed : HttpParse) (now_ms : ℕ) (p : WifiPortal C T)
      → p.state ≡ opened
      → (handle wifi tokens parsed now_ms p).1.state ≡ saved
      → let q = (handle wifi tokens parsed now_ms p).1 in
        (req : HttpRequest) × (form : WifiForm) × (creds : WifiCredentials) × (parsed
          ≡ HttpParse.ok req)
        × (route_portal req.method req.path ≡ PortalRoute.save)
        × (parse_wifi_form req.body ≡ (FormError.ok, form))
        × (make_credentials form.ssid form.password ≡ (WifiFieldError.ok, creds))
        × (loaded wifi q.store ≡ some creds)
        × (load_usable_credentials (loaded wifi q.store) ≡ (true, creds))
        × (q.saved_ssid ≡ form.ssid)
        × TokenDone tokens (token_step p.token_field form.token) p.token_store q.token_store
  unfolding Posted Committed Kept StoredAll is_ok
  saved_means_stored parsed now_ms p o h =
      let same = handle_opened parsed now_ms p o in
      let all =
        subst (λ r. Posted parsed p r.1) (sym same)
          (handle_open-saved parsed now_ms p o (sym (ap (λ r. r.1.state) same) ∙ h)) in
      let (req, ok, route, (form, fields, (creds, made, (store, name, token)))) = all in
      let accepted : is_ok (make_credentials form.ssid form.password).0 ≡ true =
        ap (λ r. is_ok r.0) made in
      let (_, _, usable) = stored_usable form.ssid form.password accepted in
      let ready =
        subst (λ c. load_usable_credentials (some c) ≡ (true, c)) (ap (λ r. r.1) made) usable in
      (
        req,
        form,
        creds,
        ok,
        route,
        fields,
        made,
        store,
        ap load_usable_credentials store ∙ ready,
        name,
        token,
      )
