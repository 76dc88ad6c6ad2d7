-- ===== src/Setup/Portal.antt =====
-- firmware/src/wifi_provision.h: class `WifiPortal`. A store is what its operations do to a state of
-- its own; a null store is `none`. A handler returns the response and the portal after it.
pub mod Stores
pub mod Commit
pub mod Runs
use presence_platform.Prelude.{
  ℕ, Bool, true, false, not, ◌&&◌, ◌||◌, Option, none, some, [], ◌∷◌, ◌++◌, Bytes, bytes_eq, codes,
  length, take, ◌==◌, leb, if◌then◌else◌, sub_u32,
}
use presence_platform.Provision.Token.{
  ProvisionTokenRecord, TokenError, trim_spaces, make_token_record,
}
use presence_platform.Setup.Access.{PortalRoute, route_portal}
use presence_platform.Setup.Fields.{
  WifiFieldError, WifiCredentials, validate_ssid, make_credentials,
}
use presence_platform.Setup.Form.{FormError, WifiForm, parse_wifi_form}
use presence_platform.Setup.Http.{HttpRequest, HttpParse}
use presence_platform.Setup.Pages.{
  TokenField, wifi_field_error_text, form_error_text, token_error_text, http_response, portal_page,
  portal_form_page, portal_saved_page,
}

-- `save` and `load` of `WifiCredentialStore` and `ProvisionTokenStore`.
pub record Store (S R : Type 0) : Type 0 where
  pub save : S → R → Bool × S
  pub load : S → Option R

pub data PortalState : Type 0 where
  idle opened saved closed : PortalState

pub data PortalAction : Type 0 where
  no_action reboot close : PortalAction

pub record WifiPortal (C T : Type 0) : Type 0 where
  pub store : Option C
  pub token_store : Option T
  pub token_field : TokenField
  pub ap_ssid : Bytes
  pub origin : Bytes
  pub saved_ssid : Bytes
  pub timeout_ms : ℕ
  pub reboot_delay_ms : ℕ
  pub start_ms : ℕ
  pub saved_ms : ℕ
  pub state : PortalState

-- `memcmp` of two packed records.
unfoldable pub same_token : ProvisionTokenRecord → ProvisionTokenRecord → Bool
same_token a b = a.magic == b.magic && bytes_eq a.token b.token

unfoldable pub same_credentials : WifiCredentials → WifiCredentials → Bool
same_credentials a b =
    a.magic == b.magic && bytes_eq a.ssid b.ssid && bytes_eq a.password b.password

unfoldable pub reads_back : {R : Type 0} → (R → R → Bool) → Option R → R → Bool
reads_back same none r = false
reads_back same (some back) r = same back r

-- The save, and the check of what is read back.
unfoldable pub save_checked :
    {S R : Type 0} → Store S R → (R → R → Bool) → Option S → R → Bool × Option S
save_checked ops same none r = (false, none)
save_checked ops same (some s) r =
    let (ok, after) = ops.save s r in
    (if ok then reads_back same (ops.load after) r else false, some after)

-- What `save` does about the token.
pub data TokenStep : Type 0 where
  keep_token : TokenStep
  save_token : ProvisionTokenRecord → TokenStep
  refuse_token : TokenError → TokenStep

unfoldable pub checked_token : TokenError × ProvisionTokenRecord → TokenStep
checked_token (TokenError.ok, tok) = save_token tok
checked_token (e, tok) = refuse_token e

unfoldable pub token_step : TokenField → Bytes → TokenStep
token_step TokenField.hidden token = keep_token
token_step TokenField.required token = checked_token (make_token_record token)
token_step TokenField.optional token =
    if length (trim_spaces token) == 0 then keep_token else checked_token (make_token_record token)

unfoldable pub prefill_of : Bytes → Bytes
prefill_of ssid = elim (validate_ssid ssid) [ WifiFieldError.ssid_bad_byte ↦ [] | _ ↦ take 32 ssid ]

unfoldable pub page_400 : {C T : Type 0} → WifiPortal C T → Bytes → Bytes → Bytes
page_400 p prefill text =
    http_response 400 (codes "Bad Request") (portal_form_page p.ap_ssid prefill text p.token_field)
      true []

unfoldable pub saved_page : {C T : Type 0} → WifiPortal C T → Bool → Bytes
saved_page p include_body =
    http_response 200 (codes "OK") (portal_saved_page p.saved_ssid) include_body []

module _ {C T : Type 0} (wifi : Store C WifiCredentials)
    (tokens : Store T ProvisionTokenRecord) where
  abbrev pub Portal : Type 0
  Portal = WifiPortal C T

  unfoldable pub begin : ℕ → Bytes → Portal → Portal
  begin now_ms origin p = record p { start_ms = now_ms; origin = origin; state = opened }

  unfoldable pub set_token_field : Option T → TokenField → Portal → Portal
  set_token_field token_store mode p = record p { token_store = token_store; token_field = mode }

  -- The end of `save`, with what is stored.
  unfoldable pub finish_save : Bytes → ℕ → Bool → Portal → Bytes × Portal
  finish_save ssid now_ms true p =
      let after = record p { saved_ssid = ssid; saved_ms = now_ms; state = saved } in
      (saved_page after true, after)
  finish_save ssid now_ms false p = (
    http_response 500 (codes "Internal Server Error")
        (portal_form_page p.ap_ssid (prefill_of ssid)
          (codes "The terminal could not store the settings. Try again.") p.token_field)
        true [],
    p,
  )

  -- The credentials, unless the token failed.
  unfoldable pub store_credentials : Bytes → ℕ → WifiCredentials → Bool → Portal → Bytes × Portal
  store_credentials ssid now_ms creds false p = finish_save ssid now_ms false p
  store_credentials ssid now_ms creds true p =
      let (stored, after) = save_checked wifi same_credentials p.store creds in
      finish_save ssid now_ms stored (record p { store = after })

  unfoldable pub store_all : Bytes → ℕ → WifiCredentials → TokenStep → Portal → Bytes × Portal
  store_all ssid now_ms creds keep_token p = store_credentials ssid now_ms creds true p
  store_all ssid now_ms creds (refuse_token e) p =
      (page_400 p (prefill_of ssid) (token_error_text e), p)
  store_all ssid now_ms creds (save_token tok) p =
      let (stored, after) = save_checked tokens same_token p.token_store tok in
      store_credentials ssid now_ms creds stored (record p { token_store = after })

  unfoldable pub save_fields :
      WifiForm → ℕ → WifiFieldError × WifiCredentials → Portal → Bytes × Portal
  save_fields form now_ms (WifiFieldError.ok, creds) p =
      store_all form.ssid now_ms creds (token_step p.token_field form.token) p
  save_fields form now_ms (e, creds) p =
      (page_400 p (prefill_of form.ssid) (wifi_field_error_text e), p)

  unfoldable pub save_form : ℕ → FormError × WifiForm → Portal → Bytes × Portal
  save_form now_ms (FormError.ok, form) p =
      save_fields form now_ms (make_credentials form.ssid form.password) p
  save_form now_ms (e, form) p = (page_400 p [] (form_error_text e), p)

  unfoldable pub save_request : HttpRequest → ℕ → Portal → Bytes × Portal
  save_request req now_ms p = elim p.state [
    | saved ↦ (saved_page p true, p)
    | _ ↦ save_form now_ms (parse_wifi_form req.body) p
  ]

  unfoldable pub answer : PortalRoute → HttpRequest → ℕ → Portal → Bytes × Portal
  answer PortalRoute.form req now_ms p =
      let head = bytes_eq req.method (codes "HEAD") in
      (
        elim p.state [
          | saved ↦ saved_page p (not head)
          | _ ↦
              http_response 200 (codes "OK") (portal_form_page p.ap_ssid [] [] p.token_field)
                (not head) []
        ],
        p,
      )
  answer PortalRoute.redirect req now_ms p = (
    http_response 302 (codes "Found") [] false (codes "Location: " ++ p.origin ++ codes "\r\n"),
    p,
  )
  answer PortalRoute.not_found req now_ms p = (http_response 404 (codes "Not Found") [] false [], p)
  answer PortalRoute.method_not_allowed req now_ms p = (
    http_response 405 (codes "Method Not Allowed") [] false (
        if bytes_eq req.path (codes "/save")
        then codes "Allow: POST\r\n"
        else codes "Allow: GET, HEAD\r\n"),
    p,
  )
  answer PortalRoute.save req now_ms p = save_request req now_ms p

  unfoldable pub handle_open : HttpParse → ℕ → Portal → Bytes × Portal
  handle_open HttpParse.incomplete now_ms p =
      (http_response 408 (codes "Request Timeout") [] false [], p)
  handle_open HttpParse.bad now_ms p = (http_response 400 (codes "Bad Request") [] false [], p)
  handle_open HttpParse.too_large now_ms p =
      (http_response 413 (codes "Content Too Large") [] false [], p)
  handle_open (HttpParse.ok req) now_ms p = answer (route_portal req.method req.path) req now_ms p

  unfoldable pub is_shut : PortalState → Bool
  is_shut idle = true
  is_shut closed = true
  is_shut _ = false

  unfoldable pub handle : HttpParse → ℕ → Portal → Bytes × Portal
  handle parsed now_ms p =
      let answered = handle_open parsed now_ms p in
      if is_shut p.state
      then (
        http_response 503 (codes "Service Unavailable")
            (portal_page (codes "Closed") (codes "<p>Setup is closed.</p>")) true [],
        p,
      )
      else answered

  unfoldable pub tick : ℕ → Portal → PortalAction × Portal
  tick now_ms p = elim p.state [
    | saved ↦ (if leb p.reboot_delay_ms (sub_u32 now_ms p.saved_ms) then reboot else no_action, p)
    | opened ↦
        if leb p.timeout_ms (sub_u32 now_ms p.start_ms)
        then (close, record p { state = closed })
        else (no_action, p)
    | _ ↦ (no_action, p)
  ]
