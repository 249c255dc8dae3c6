-- ===== src/Connector/Handshake/Laws.antt =====
-- The handshake of connector/pkg/gatewayclient/client.go: when it succeeds.
use open_claw_bridge.Common.{
  Bool, true, false, ◌&&◌, Option, none, some, List, [], ◌∷◌, if◌then◌else◌, ◌≡◌, ◌≢◌, refl, ◌⊎◌,
  inl, inr, arith,
}
use open_claw_bridge.Text.{Bytes, codes, text_eq}
use open_claw_bridge.Text.Laws.{text_eq_iff}
use open_claw_bridge.Json.{Codec}
use open_claw_bridge.Relay.Network.{Message, Read, text, binary, received, read_error}
use open_claw_bridge.Connector.Payload.{Envelope, extract_error_message, normal}
use open_claw_bridge.Connector.Events.{is_error_event_name}
use open_claw_bridge.Connector.Gateway.{is_ok}
use open_claw_bridge.Connector.Handshake.{
  refusal, HandshakeError, decoded_verdict, Verdict, go_on, pass, refuse, Wait, passed,
  connect_verdict, verdict_of, settle_wait, wait_for, perform_connect, decode_envelope,
}

-- The reads that a wait consumed: none of the messages before the last decided anything, and the
-- last one, text, let it pass.
abbrev pub IsPassed : Codec → (Envelope → Verdict) → List Read → List Read → Type 0
IsPassed c f [] rest = ⊥
IsPassed c f (read_error ∷ reads) rest = ⊥
IsPassed c f (received m ∷ reads) rest =
    ((verdict_of c f m ≡ pass) × (reads ≡ rest))
    ⊎ ((verdict_of c f m ≡ go_on) × IsPassed c f reads rest)

settle_wait-IsPassed :
    (c : Codec) (f : Envelope → Verdict) (m : Message) (reads rest : List Read) (v : Verdict)
    (w : Wait)
    → verdict_of c f m ≡ v
    → (w ≡ passed rest → IsPassed c f reads rest)
    → settle_wait v reads w ≡ passed rest
    → IsPassed c f (received m ∷ reads) rest
settle_wait-IsPassed c f m reads rest go_on w hv ih h = inr (hv, ih h)
settle_wait-IsPassed c f m reads rest pass w hv ih h = inl (hv, cc)
settle_wait-IsPassed c f m reads rest (refuse e) w hv ih h = cc

wait_for-IsPassed :
    (c : Codec) (f : Envelope → Verdict) (reads rest : List Read)
    → wait_for c f reads ≡ passed rest
    → IsPassed c f reads rest
unfolding wait_for
wait_for-IsPassed c f [] rest h = cc
wait_for-IsPassed c f (read_error ∷ reads) rest h = cc
wait_for-IsPassed c f (received m ∷ reads) rest h =
    settle_wait-IsPassed c f m reads rest (verdict_of c f m) (wait_for c f reads) refl
      (wait_for-IsPassed c f reads rest) h

if-pass :
    (b : Bool) (v w : Verdict)
    → (if b then v else w) ≡ pass
    → ((b ≡ true) × (v ≡ pass)) ⊎ ((b ≡ false) × (w ≡ pass))
if-pass true v w h = inl (refl, h)
if-pass false v w h = inr (refl, h)

refuse-pass : (e : HandshakeError) → refuse e ≢ pass
refuse-pass e h = cc

go_on-pass : go_on ≢ pass
go_on-pass h = cc

refuse_or_go_on : (b : Bool) (e : HandshakeError) → (if b then refuse e else go_on) ≢ pass
refuse_or_go_on true e h = refuse-pass e h
refuse_or_go_on false e h = go_on-pass h

and_true : (a b : Bool) → (a && b) ≡ true → (a ≡ true) × (b ≡ true)
and_true a b h = ground arith

is_ok-true : (o : Option Bool) → is_ok o ≡ true → o ≡ some true
is_ok-true (some true) h = refl
is_ok-true (some false) h = cc
is_ok-true none h = cc

-- An accepted response to the connect request.
abbrev pub IsAccepted : Codec → Bytes → Message → Type 0
IsAccepted c req_id (binary b) = ⊥
IsAccepted c req_id (text b) =
    (env : Envelope) × (decode_envelope c b ≡ some env)
    × (env.type ≡ codes "res")
    × (env.id ≡ req_id)
    × (env.ok_field ≡ some true)

connect_verdict-pass :
    (c : Codec) (req_id : Bytes) (env : Envelope)
    → connect_verdict c req_id env ≡ pass
    → (env.type ≡ codes "res") × (env.id ≡ req_id) × (env.ok_field ≡ some true)
unfolding connect_verdict
connect_verdict-pass c req_id env h =
    elim (if-pass (text_eq env.type (codes "res") && text_eq env.id req_id) _ _ h) [
      | inl (b, q) ↦ elim (if-pass (is_ok env.ok_field) _ _ q) [
        | inl (o, _) ↦
            let (t, i) = and_true (text_eq env.type (codes "res")) (text_eq env.id req_id) b in
            (
              (text_eq_iff env.type (codes "res")).0 t,
              (text_eq_iff env.id req_id).0 i,
              is_ok-true env.ok_field o,
            )
        | inr (_, q') ↦ absurd (refuse-pass _ q')
      ]
      | inr (_, q) ↦ absurd (
          refuse_or_go_on
            (text_eq env.type (codes "event") && is_error_event_name (normal env.event))
            (refusal (codes "gateway connect event error: ") (extract_error_message c env)) q)
    ]

decoded-IsAccepted :
    (c : Codec) (req_id b : Bytes) (o : Option Envelope)
    → decode_envelope c b ≡ o
    → decoded_verdict (connect_verdict c req_id) o ≡ pass
    → IsAccepted c req_id (text b)
decoded-IsAccepted c req_id b none hd h = absurd (go_on-pass h)
decoded-IsAccepted c req_id b (some env) hd h =
    let (t, i, o) = connect_verdict-pass c req_id env h in (env, hd, t, i, o)

verdict_of-IsAccepted :
    (c : Codec) (req_id : Bytes) (m : Message)
    → verdict_of c (connect_verdict c req_id) m ≡ pass
    → IsAccepted c req_id m
verdict_of-IsAccepted c req_id (binary b) h = go_on-pass h
verdict_of-IsAccepted c req_id (text b) h =
    decoded-IsAccepted c req_id b (decode_envelope c b) refl h

-- The reads up to an accepted response, none of which decided anything before it.
abbrev pub IsConnected : Codec → Bytes → List Read → List Read → Type 0
IsConnected c req_id [] rest = ⊥
IsConnected c req_id (read_error ∷ reads) rest = ⊥
IsConnected c req_id (received m ∷ reads) rest =
    (IsAccepted c req_id m × (reads ≡ rest))
    ⊎ ((verdict_of c (connect_verdict c req_id) m ≡ go_on) × IsConnected c req_id reads rest)

passed-IsConnected :
    (c : Codec) (req_id : Bytes) (reads rest : List Read)
    → IsPassed c (connect_verdict c req_id) reads rest
    → IsConnected c req_id reads rest
passed-IsConnected c req_id [] rest h = h
passed-IsConnected c req_id (read_error ∷ reads) rest h = h
passed-IsConnected c req_id (received m ∷ reads) rest (inl (v, q)) =
    inl (verdict_of-IsAccepted c req_id m v, q)
passed-IsConnected c req_id (received m ∷ reads) rest (inr (v, h)) =
    inr (v, passed-IsConnected c req_id reads rest h)

-- The client is connected only by a response to its own request that says ok: every message before
-- it decided nothing, and the reads after it are left for the serve loop.
pub perform_connect-IsConnected :
    (c : Codec) (req_id : Bytes) (reads rest : List Read)
    → perform_connect c req_id reads ≡ passed rest
    → IsConnected c req_id reads rest
unfolding perform_connect
perform_connect-IsConnected c req_id reads rest h =
    passed-IsConnected c req_id reads rest
      (wait_for-IsPassed c (connect_verdict c req_id) reads rest h)
