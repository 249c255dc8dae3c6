-- ===== src/Connector/Reconnect/Backoff.antt =====
-- Run of connector/pkg/gatewayclient/client.go: the delays between the attempts.
use open_claw_bridge.Common.{
  ℕ, zero, suc, ◌*◌, ◌^◌, ◌≤◌, ◌<◌, false, List, [], ◌∷◌, if◌then◌else◌, ltb, arith, ◌≡◌,
  Bool-cases, inl, inr,
}
use open_claw_bridge.Json.{Codec}
use open_claw_bridge.Connector.Settings.{GatewayConfig}
use open_claw_bridge.Connector.Gateway.{Client}
use open_claw_bridge.Connector.Reconnect.{
  Round, GatewayError, Standing, connecting, serving, ended, seconds, next_backoff, RunResult,
  after_attempt, is_auth_failure, run_from, run_gateway, connect_and_serve,
}

abbrev pub least : ℕ → ℕ → ℕ
least a b = if ltb b a then b else a

next_backoff_lem :
    (longest b : ℕ) → b < 2 ^ 62 → longest < 2 ^ 63 → next_backoff longest b ≡ least (b * 2) longest
unfolding next_backoff
next_backoff_lem longest b hb hl = ground arith

-- `b` doubled `k` times.
abbrev pub doubled : ℕ → ℕ → ℕ
doubled b zero = b
doubled b (suc k) = doubled b k * 2

-- From the `k`-th on, each delay is the first one doubled as often as there were attempts, or the
-- longest one where that is less; none of the errors is a failed authentication.
abbrev pub IsBackedOff : ℕ → ℕ → ℕ → List (GatewayError × ℕ) → Type 0
IsBackedOff first longest k [] = Unit
IsBackedOff first longest k ((e, d) ∷ ws) =
    (d ≡ least (doubled first k) longest)
    × (is_auth_failure e ≡ false)
    × IsBackedOff first longest (suc k) ws

next_backoff_step :
    (first longest b k : ℕ)
    → longest < 2 ^ 62
    → b ≡ least (doubled first k) longest
    → next_backoff longest b ≡ least (doubled first (suc k)) longest
unfolding next_backoff
next_backoff_step first longest b k hl e = ground arith

after_attempt-IsBackedOff :
    (first longest b k : ℕ) (r : Client × Standing) (rest : Client → RunResult)
    → b ≡ least (doubled first k) longest
    → ((s : Client) → IsBackedOff first longest (suc k) (rest s).waits)
    → IsBackedOff first longest k (after_attempt b r rest).waits
after_attempt-IsBackedOff first longest b k (s, connecting) rest e h = tt
after_attempt-IsBackedOff first longest b k (s, serving) rest e h = tt
after_attempt-IsBackedOff first longest b k (s, ended x) rest e h =
    elim (Bool-cases (is_auth_failure x)) [
      | inl auth ↦ rw auth tt
      | inr other ↦ rw other (e, other, h s)
    ]

module _ (c : Codec) (cfg : GatewayConfig) where
  run_from-IsBackedOff :
      (first b k : ℕ) (rounds : List Round) (s : Client)
      → seconds cfg.reconnect_max_seconds < 2 ^ 62
      → b ≡ least (doubled first k) (seconds cfg.reconnect_max_seconds)
      → IsBackedOff first (seconds cfg.reconnect_max_seconds) k (run_from c cfg b rounds s).waits
  unfolding run_from
  run_from-IsBackedOff first b k [] s hl e = tt
  run_from-IsBackedOff first b k (r ∷ rs) s hl e =
      let longest : ℕ = seconds cfg.reconnect_max_seconds in
      after_attempt-IsBackedOff first longest b k (connect_and_serve c cfg r s) _ e (λ s'.
        run_from-IsBackedOff first (next_backoff longest b) (suc k) rs s' hl
          (next_backoff_step first longest b k hl e))

  -- Where the first delay is no longer than the longest, and that one is below 2^62 nanoseconds, the
  -- k-th delay of Run is the first one doubled k times, or the longest one where that is less,
  -- whether or not the attempts between them served.
  pub run_gateway-IsBackedOff :
      (rounds : List Round) (s : Client)
      → seconds cfg.reconnect_initial_seconds ≤ seconds cfg.reconnect_max_seconds
      → seconds cfg.reconnect_max_seconds < 2 ^ 62
      → IsBackedOff
          (seconds cfg.reconnect_initial_seconds)
          (seconds cfg.reconnect_max_seconds)
          0
          (run_gateway c cfg rounds s).waits
  unfolding run_gateway
  run_gateway-IsBackedOff rounds s hi hl =
      run_from-IsBackedOff (seconds cfg.reconnect_initial_seconds)
        (seconds cfg.reconnect_initial_seconds) 0 rounds s hl (ground arith)
