-- ===== src/Connector/Reconnect/Running.antt =====
-- Run of connector/pkg/gatewayclient/client.go: it is ready exactly while it serves, and failures that
-- are not of the authentication do not end it.
use open_claw_bridge.Common.{
  ℕ, suc, true, false, Option, none, some, List, [], ◌∷◌, ◌++◌, length, ◌≡◌, refl, sym, subst, ap,
  ◌∙◌, Bool-cases, inl, inr, All,
}
use open_claw_bridge.Json.{Codec}
use open_claw_bridge.Relay.Network.{Read, received, read_error}
use open_claw_bridge.Connector.Settings.{GatewayConfig}
use open_claw_bridge.Connector.Gateway.{Client}
use open_claw_bridge.Text.{Bytes}
use open_claw_bridge.Connector.Handshake.{
  Wait, waiting, passed, refused, wait_for_challenge, perform_connect,
}
use open_claw_bridge.Connector.Reconnect.{
  Round, GatewayError, Standing, connecting, serving, ended, RunResult, RunState, in_attempt,
  retrying, auth_failed, serve_message, serve, after_connect, connect_id, send_connect, add_wait,
  after_challenge, connect_and_serve, set_ready, is_auth_failure, after_attempt, run_from,
  run_gateway, next_backoff, seconds,
}
use open_claw_bridge.Connector.Reconnect.Ready.{Stands, connect_and_serve-Stands}

-- The client is ready, and connected, exactly while Run is in the serve loop.
abbrev pub RunStands : Client → RunState → Type 0
RunStands s (in_attempt st) = Stands (s, st)
RunStands s retrying = s.ready ≡ false
RunStands s auth_failed = s.ready ≡ false

after_attempt-RunStands :
    (b : ℕ) (r : Client × Standing) (rest : Client → RunResult)
    → Stands r
    → ((s : Client) → s.ready ≡ false → RunStands (rest s).client (rest s).state)
    → RunStands (after_attempt b r rest).client (after_attempt b r rest).state
after_attempt-RunStands b (s, connecting) rest st h = st
after_attempt-RunStands b (s, serving) rest st h = st
after_attempt-RunStands b (s, ended e) rest st h = elim (Bool-cases (is_auth_failure e)) [
  | inl auth ↦ rw auth st
  | inr other ↦ rw other (h s st)
]

serve-same :
    (c : Codec) (reads : List Read) (s s' : Client) → (serve c reads s).1 ≡ (serve c reads s').1
unfolding serve
serve-same c [] s s' = refl
serve-same c (read_error ∷ reads) s s' = refl
serve-same c (received m ∷ reads) s s' =
    serve-same c reads (serve_message c m s) (serve_message c m s')

after_connect-same :
    (c : Codec) (w : Wait) (s s' : Client) → (after_connect c w s).1 ≡ (after_connect c w s').1
after_connect-same c waiting s s' = refl
after_connect-same c (refused e) s s' = refl
after_connect-same c (passed reads) s s' = serve-same c reads (set_ready true s) (set_ready true s')

abbrev Ends : Codec → GatewayConfig → Round → Client → GatewayError → Type 0
Ends c cfg r s e = (connect_and_serve c cfg r s).1 ≡ ended e

module _ (c : Codec) (cfg : GatewayConfig) where
  run_from-RunStands :
      (b : ℕ) (rounds : List Round) (s : Client)
      → s.ready ≡ false
      → RunStands (run_from c cfg b rounds s).client (run_from c cfg b rounds s).state
  unfolding run_from
  run_from-RunStands b [] s h = h
  run_from-RunStands b (r ∷ rs) s h =
      let later : ℕ = next_backoff (seconds cfg.reconnect_max_seconds) b in
      after_attempt-RunStands b (connect_and_serve c cfg r s) (run_from c cfg later rs)
        (connect_and_serve-Stands c cfg r s h) (run_from-RunStands later rs)

  send_connect-same :
      (r : Round) (reads : List Read) (o : Option Bytes) (s s' : Client)
      → (send_connect c cfg r reads o s).1 ≡ (send_connect c cfg r reads o s').1
  send_connect-same r reads (some e) s s' = refl
  send_connect-same r reads none s s' =
      after_connect-same c (perform_connect c (connect_id c r) reads) _ _

  after_challenge-same :
      (r : Round) (w : Wait) (s s' : Client)
      → (after_challenge c cfg r w s).1 ≡ (after_challenge c cfg r w s').1
  after_challenge-same r waiting s s' = refl
  after_challenge-same r (refused e) s s' = refl
  after_challenge-same r (passed reads) s s' = send_connect-same r reads r.write_error s s'

  -- How an attempt goes does not depend on the client's tables.
  connect_and_serve-same :
      (r : Round) (s s' : Client)
      → (connect_and_serve c cfg r s).1 ≡ (connect_and_serve c cfg r s').1
  unfolding connect_and_serve
  connect_and_serve-same r s s' = elim (Bool-cases r.dialed) [
    | inl d ↦ rw d (after_challenge-same r (wait_for_challenge c r.reads) _ _)
    | inr d ↦ rw d refl
  ]

  -- An attempt that ends with an error other than of the authentication.
  abbrev pub FailsOnce : Client → Round → Type 0
  FailsOnce s r =
      (e : GatewayError) × ((connect_and_serve c cfg r s).1 ≡ ended e) × (is_auth_failure e ≡ false)

  after_failure :
      (b : ℕ) (p : Client × Standing) (e : GatewayError) (rest : Client → RunResult)
      → p.1 ≡ ended e
      → is_auth_failure e ≡ false
      → after_attempt b p rest ≡ add_wait e b (rest p.0)
  after_failure b (s, connecting) e rest h n = cc
  after_failure b (s, serving) e rest h n = cc
  after_failure b (s, ended x) e rest h n = let same : x ≡ e = cc in rw (same, n) refl

  run_from_serves :
      (b : ℕ) (fails : List Round) (good : Round) (s₀ s : Client)
      → All (FailsOnce s₀) fails
      → (connect_and_serve c cfg good s₀).1 ≡ serving
      → ((run_from c cfg b (fails ++ good ∷ []) s).state ≡ in_attempt serving)
        × (length (run_from c cfg b (fails ++ good ∷ []) s).waits ≡ length fails)
  unfolding run_from
  run_from_serves b [] good s₀ s hf hg =
      let Good : Client × Standing → Type 0 = λ p.
        let r : RunResult =
          after_attempt b p
            (run_from c cfg (next_backoff (seconds cfg.reconnect_max_seconds) b) []) in
        (r.state ≡ in_attempt serving) × (length r.waits ≡ 0) in
      let now : (connect_and_serve c cfg good s).1 ≡ serving =
        connect_and_serve-same good s s₀ ∙ hg in
      subst (λ st. Good ((connect_and_serve c cfg good s).0, st)) (sym now) (refl, refl)
  run_from_serves b (r ∷ rs) good s₀ s ((e, he, hn), hf) hg =
      let later : ℕ = next_backoff (seconds cfg.reconnect_max_seconds) b in
      let p = connect_and_serve c cfg r s in
      let rest = run_from c cfg later (rs ++ good ∷ []) in
      let (st, n) = run_from_serves later rs good s₀ p.0 hf hg in
      rw (after_failure b p e rest (connect_and_serve-same r s s₀ ∙ he) hn) (st, ap suc n)

  -- Attempts that fail do not end Run, unless the authentication fails: after any number of them the
  -- next attempt that gets through serves, with a ready and connected client, and there was one delay
  -- for each that failed.
  pub run_gateway_serves :
      (fails : List Round) (good : Round) (s : Client)
      → s.ready ≡ false
      → All (FailsOnce s) fails
      → (connect_and_serve c cfg good s).1 ≡ serving
      → let r : RunResult = run_gateway c cfg (fails ++ good ∷ []) s in
        (r.state ≡ in_attempt serving)
        × (r.client.ready ≡ true)
        × (r.client.connected ≡ true)
        × (length r.waits ≡ length fails)
  unfolding run_gateway
  run_gateway_serves fails good s h hf hg =
      let first : ℕ = seconds cfg.reconnect_initial_seconds in
      let r : RunResult = run_from c cfg first (fails ++ good ∷ []) s in
      let (st, n) = run_from_serves first fails good s s hf hg in
      let (ready, connected) =
        subst (RunStands r.client) st (run_from-RunStands first (fails ++ good ∷ []) s h) in
      (st, ready, connected, n)

  -- Whatever the attempts meet, the client is ready exactly while Run is in the serve loop, and then
  -- it is connected.
  pub run_gateway-RunStands :
      (rounds : List Round) (s : Client)
      → s.ready ≡ false
      → RunStands (run_gateway c cfg rounds s).client (run_gateway c cfg rounds s).state
  unfolding run_gateway
  run_gateway-RunStands rounds s h =
      run_from-RunStands (seconds cfg.reconnect_initial_seconds) rounds s h
