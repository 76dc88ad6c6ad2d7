-- ===== src/Setup/SoftAp/Ends.antt =====
-- firmware/src/wifi_softap.h: when the setup network goes down.
use presence_platform.Prelude.{
  ℕ, ◌≡◌, ◌⊎◌, inl, refl, Bool, true, List, [], ◌∷◌, ◌++◌, Bytes, codes, arith,
}
use presence_platform.Provision.Token.{ProvisionTokenRecord}
use presence_platform.Setup.Access.{SetupApKey, setup_key_usable}
use presence_platform.Setup.Fields.{WifiCredentials}
use presence_platform.Setup.Portal.{
  Store, WifiPortal, saved, closed, no_action, reboot, close, begin, tick,
}
use presence_platform.Setup.SoftAp.{
  PortalTurn, PortalEnd, no_network, restarted, window_closed, serving, serve_client, serve_turns,
  run_soft_ap_portal,
}

module _ {C T : Type 0} (wifi : Store C WifiCredentials)
    (tokens : Store T ProvisionTokenRecord) where
  tick_ends :
      (now_ms : ℕ) (p : WifiPortal C T)
      → let (action, after) = tick wifi tokens now_ms p in
        (action ≡ no_action)
        ⊎ ((action ≡ reboot) × (after.state ≡ saved))
        ⊎ ((action ≡ close) × (after.state ≡ closed))
  unfolding tick
  tick_ends now_ms p = ground arith

  -- How a run may end, and in which state of the portal.
  abbrev pub EndsRight : PortalEnd × WifiPortal C T → Type 0
  EndsRight (end, after) =
      (end ≡ serving)
      ⊎ ((end ≡ restarted) × (after.state ≡ saved))
      ⊎ ((end ≡ window_closed) × (after.state ≡ closed))

  serve_turns-EndsRight :
      (turns : List PortalTurn) (p : WifiPortal C T) → EndsRight (serve_turns wifi tokens turns p)
  unfolding serve_turns
  serve_turns-EndsRight [] p = inl refl
  serve_turns-EndsRight (turn ∷ turns) p =
      let served = serve_client wifi tokens turn p in
      ground (
        arith,
        tick_ends turn.tick_ms served,
        serve_turns-EndsRight turns (tick wifi tokens turn.tick_ms served).1,
      )

  -- A run of the setup network either never opens it and leaves the portal as it was, or its
  -- key is usable and the network came up; then the run is still serving when its turns are
  -- used up, or ends with a restart and the portal saved, or with the window closed and the
  -- portal closed.
  pub run_soft_ap_portal-EndsRight :
      (up : Bool) (key : SetupApKey) (now_ms : ℕ) (ip : Bytes) (turns : List PortalTurn)
      (p : WifiPortal C T)
      → let (end, after) = run_soft_ap_portal wifi tokens up key now_ms ip turns p in
        ((end ≡ no_network) × (after ≡ p))
        ⊎ ((setup_key_usable key ≡ true) × (up ≡ true) × EndsRight (end, after))
  unfolding run_soft_ap_portal
  run_soft_ap_portal-EndsRight up key now_ms ip turns p =
      let origin : Bytes = codes "http://" ++ ip ++ codes "/" in
      let ends = serve_turns-EndsRight turns (begin wifi tokens now_ms origin p) in
      ground (arith, ends)
