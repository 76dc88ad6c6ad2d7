-- ===== src/Setup/Portal/Runs.antt =====
-- Requests and ticks in any order: what a portal does before and after it is done.
use presence_platform.Prelude.{
  ℕ, ◌≡◌, ◌≢◌, ◌⊎◌, inl, inr, refl, ap, sym, ◌∙◌, subst, true, some, List, [], ◌∷◌, Bytes, arith,
}
use presence_platform.Provision.Token.{ProvisionTokenRecord}
use presence_platform.Setup.Fields.{
  WifiFieldError, WifiCredentials, make_credentials, load_usable_credentials,
}
use presence_platform.Setup.Http.{HttpRequest, HttpParse}
use presence_platform.Setup.Access.{PortalRoute, route_portal}
use presence_platform.Setup.Portal.{
  Store, PortalState, idle, opened, saved, closed, WifiPortal, is_shut, answer, handle_open,
  save_request, handle, tick,
}
use presence_platform.Setup.Portal.Stores.{opened_not_saved, loaded}
use presence_platform.Setup.Portal.Commit.{saved_means_stored}

pub data Event : Type 0 where
  request : HttpParse → ℕ → Event
  ticked : ℕ → Event

state_cases : (s : PortalState) → (s ≡ opened) ⊎ (s ≢ opened)
state_cases opened = inl refl
state_cases idle = inr (λ h. ground arith)
state_cases saved = inr (λ h. ground arith)
state_cases closed = inr (λ h. ground arith)

module _ {C T : Type 0} (wifi : Store C WifiCredentials)
    (tokens : Store T ProvisionTokenRecord) where
  unfoldable pub perform : Event → WifiPortal C T → WifiPortal C T
  perform (request parsed now_ms) p = (handle wifi tokens parsed now_ms p).1
  perform (ticked now_ms) p = (tick wifi tokens now_ms p).1

  unfoldable pub run : List Event → WifiPortal C T → WifiPortal C T
  run [] p = p
  run (e ∷ es) p = run es (perform e p)

  save_request_saved :
      (req : HttpRequest) (now_ms : ℕ) (p : WifiPortal C T)
      → p.state ≡ saved
      → (save_request wifi tokens req now_ms p).1 ≡ p
  unfolding save_request
  save_request_saved req now_ms p e = ground arith

  answer_saved :
      (route : PortalRoute) (req : HttpRequest) (now_ms : ℕ) (p : WifiPortal C T)
      → p.state ≡ saved
      → (answer wifi tokens route req now_ms p).1 ≡ p
  unfolding answer
  answer_saved PortalRoute.form req now_ms p e = refl
  answer_saved PortalRoute.redirect req now_ms p e = refl
  answer_saved PortalRoute.not_found req now_ms p e = refl
  answer_saved PortalRoute.method_not_allowed req now_ms p e = refl
  answer_saved PortalRoute.save req now_ms p e = save_request_saved req now_ms p e

  handle_open_saved :
      (parsed : HttpParse) (now_ms : ℕ) (p : WifiPortal C T)
      → p.state ≡ saved
      → (handle_open wifi tokens parsed now_ms p).1 ≡ p
  unfolding handle_open
  handle_open_saved HttpParse.incomplete now_ms p e = refl
  handle_open_saved HttpParse.bad now_ms p e = refl
  handle_open_saved HttpParse.too_large now_ms p e = refl
  handle_open_saved (HttpParse.ok req) now_ms p e =
      answer_saved (route_portal req.method req.path) req now_ms p e

  handle_settled :
      (parsed : HttpParse) (now_ms : ℕ) (p : WifiPortal C T) (s : PortalState)
      → p.state ≡ s
      → s ≢ opened
      → (handle wifi tokens parsed now_ms p).1 ≡ p
  unfolding handle is_shut
  handle_settled parsed now_ms p opened e settled = absurd (settled refl)
  handle_settled parsed now_ms p idle e settled = ground arith
  handle_settled parsed now_ms p closed e settled = ground arith
  handle_settled parsed now_ms p saved e settled =
      ground (arith, handle_open_saved parsed now_ms p e)

  tick_settled :
      (now_ms : ℕ) (p : WifiPortal C T) (s : PortalState)
      → p.state ≡ s
      → s ≢ opened
      → (tick wifi tokens now_ms p).1 ≡ p
  unfolding tick
  tick_settled now_ms p opened e settled = absurd (settled refl)
  tick_settled now_ms p saved e settled = ground arith
  tick_settled now_ms p idle e settled = ground arith
  tick_settled now_ms p closed e settled = ground arith

  perform_settled : (event : Event) (p : WifiPortal C T) → p.state ≢ opened → perform event p ≡ p
  unfolding perform
  perform_settled (request parsed now_ms) p settled =
      handle_settled parsed now_ms p p.state refl settled
  perform_settled (ticked now_ms) p settled = tick_settled now_ms p p.state refl settled

  -- A portal that is not open stays as it is, its stores included, whatever requests and ticks come.
  pub settled_portal_stays :
      (es : List Event) (p : WifiPortal C T) → p.state ≢ opened → run es p ≡ p
  unfolding run
  settled_portal_stays [] p settled = refl
  settled_portal_stays (e ∷ es) p settled =
      let same = perform_settled e p settled in ap (run es) same ∙ settled_portal_stays es p settled

  tick_not_saved :
      (now_ms : ℕ) (p : WifiPortal C T)
      → p.state ≡ opened
      → (tick wifi tokens now_ms p).1.state ≢ saved
  unfolding tick
  tick_not_saved now_ms p o h = ground arith

  -- Credentials that the store loads for the network the page names.
  Loads : WifiPortal C T → Type 0
  Loads q =
      (password : Bytes) × (creds : WifiCredentials) × (make_credentials q.saved_ssid password
        ≡ (WifiFieldError.ok, creds))
      × (loaded wifi q.store ≡ some creds)
      × (load_usable_credentials (loaded wifi q.store) ≡ (true, creds))

  perform-Loads :
      (e : Event) (p : WifiPortal C T)
      → p.state ≡ opened
      → (perform e p).state ≡ saved
      → Loads (perform e p)
  unfolding perform Loads
  perform-Loads (ticked now_ms) p o h = absurd (tick_not_saved now_ms p o h)
  perform-Loads (request parsed now_ms) p o h =
      let (req, form, creds, ok, route, fields, made, store, usable, name, token) =
        saved_means_stored wifi tokens parsed now_ms p o h in
      (form.password, creds, ap (λ s. make_credentials s form.password) name ∙ made, store, usable)

  -- If an open portal is saved after any sequence of requests and ticks, its store loads
  -- credentials that `makeCredentials` made for the network that the page names and that
  -- `loadUsableCredentials` accepts.
  pub saved_run_has_credentials :
      (es : List Event) (p : WifiPortal C T)
      → p.state ≡ opened
      → (run es p).state ≡ saved
      → (password : Bytes) × (creds : WifiCredentials) × (make_credentials
            (run es p).saved_ssid
            password
          ≡ (WifiFieldError.ok, creds))
        × (loaded wifi (run es p).store ≡ some creds)
        × (load_usable_credentials (loaded wifi (run es p).store) ≡ (true, creds))
  unfolding run Loads
  saved_run_has_credentials [] p o h = absurd (opened_not_saved (sym o ∙ h))
  saved_run_has_credentials (e ∷ es) p o h = elim (state_cases (perform e p).state) [
    | inl more ↦ saved_run_has_credentials es (perform e p) more h
    | inr settled ↦
        let stays = settled_portal_stays es (perform e p) settled in
        let this = perform-Loads e p o (sym (ap (λ q. q.state) stays) ∙ h) in
        subst Loads (sym stays) this
  ]
