-- ===== src/Connector/Events/Laws.antt =====
-- mapGatewayEvent of connector/pkg/gatewayclient/events.go: the shape of what it returns.
use Prim.Native.Nat.{ℕ}
use open_claw_bridge.Common.{
  ap, if◌then◌else◌, Bool, true, false, Option, none, some, List, [], ◌∷◌, ◌++◌, ◌≡◌, ◌≢◌, refl,
}
use open_claw_bridge.Text.{Bytes, codes}
use open_claw_bridge.Json.{Fields, Codec}
use open_claw_bridge.Protocol.Event.{Event}
use open_claw_bridge.Connector.Payload.{
  Envelope, or_else, error_text, lookup, string_value, normal, extract_content, extract_chat_text,
  extract_agent_text, extract_error_message_from_payload, extract_error_message, decode_payload,
}
use open_claw_bridge.Connector.Events.{
  token_event, end_event, error_event, tokens, gateway_event_error, status_events, chat_events,
  agent_events, is_chat_event_name, is_agent_event_name, is_token_event_name, is_done_event_name,
  is_error_event_name, is_disconnect_event_name, named_events, map_gateway_event,
}

-- What closes an answer: the end, or an error that says something.
pub data IsTerminal : Event → Type 0 where
  ends : IsTerminal end_event
  fails : (code message : Bytes) → message ≢ [] → IsTerminal (error_event code message)

-- At most one token event, and it says something; then at most one event that closes the answer.
pub data IsReply : List Event → Type 0 where
  silent : IsReply []
  says : (s : Bytes) → s ≢ [] → IsReply (token_event s ∷ [])
  closes : (e : Event) → IsTerminal e → IsReply (e ∷ [])
  says_last : (s : Bytes) (e : Event) → s ≢ [] → IsTerminal e → IsReply (token_event s ∷ e ∷ [])

pub cons-nonempty : (x : ℕ) (s : Bytes) → x ∷ s ≢ []
cons-nonempty x s e = cc

or_else-nonempty : (s t : Bytes) → t ≢ [] → or_else s t ≢ []
or_else-nonempty [] t h = h
or_else-nonempty (x ∷ s) t h = cons-nonempty x s

-- A payload always gives some error message.
pub error_message-nonempty :
    (c : Codec) (fs : Fields) → extract_error_message_from_payload c fs ≢ []
unfolding extract_error_message_from_payload
error_message-nonempty c fs =
    or_else-nonempty _ _ (or_else-nonempty _ _ (cons-nonempty _ (codes "ateway event error")))

or_else-same : (s t : Bytes) → s ≢ [] → or_else s t ≡ s
or_else-same [] t h = absurd (h refl)
or_else-same (x ∷ s) t h = refl

-- The last resort of `extract_error_message`, "unknown error", is never used: the payload's own
-- message is there before it.
pub unknown_error_unused :
    (c : Codec) (env : Envelope)
    → extract_error_message c env
      ≡ or_else
          (error_text env.error)
          (extract_error_message_from_payload c (decode_payload c env.payload))
unfolding extract_error_message
unknown_error_unused c env =
    ap (or_else (error_text env.error))
      (or_else-same _ _ (error_message-nonempty c (decode_payload c env.payload)))

pub failure-nonempty : (c : Codec) (env : Envelope) → extract_error_message c env ≢ []
unfolding extract_error_message
failure-nonempty c env =
    or_else-nonempty _ _ (or_else-nonempty _ _ (cons-nonempty _ (codes "nknown error")))

pub tokens-IsReply : (s : Bytes) → IsReply (tokens s)
tokens-IsReply [] = silent
tokens-IsReply (x ∷ s) = says (x ∷ s) (cons-nonempty x s)

pub tokens_end-IsReply : (s : Bytes) (e : Event) → IsTerminal e → IsReply (tokens s ++ e ∷ [])
tokens_end-IsReply [] e h = closes e h
tokens_end-IsReply (x ∷ s) e h = says_last (x ∷ s) e (cons-nonempty x s) h

pub error-IsReply : (c : Codec) (fs : Fields) → IsReply (gateway_event_error c fs)
error-IsReply c fs = closes _ (fails _ _ (error_message-nonempty c fs))

pub if-IsReply :
    {x y : List Event} (b : Bool) → IsReply x → IsReply y → IsReply (if b then x else y)
if-IsReply true h k = h
if-IsReply false h k = k

chat_events-IsReply : (c : Codec) (fs : Fields) → IsReply (chat_events c fs)
unfolding chat_events
chat_events-IsReply c fs =
    let said = extract_chat_text c fs in
    if-IsReply _ (tokens-IsReply said) (
      if-IsReply _ (tokens_end-IsReply said end_event ends) (
        if-IsReply _ (error-IsReply c fs)
          (if-IsReply _ (closes end_event ends) (tokens-IsReply said))))

closing-IsReply :
    (s : Bytes) {e e' : Event} (b b' : Bool)
    → IsTerminal e
    → IsTerminal e'
    → IsReply (tokens s ++ (if b then e ∷ [] else if b' then e' ∷ [] else []))
closing-IsReply s true b' h h' = tokens_end-IsReply s _ h
closing-IsReply s false true h h' = tokens_end-IsReply s _ h'
closing-IsReply [] false false h h' = silent
closing-IsReply (x ∷ s) false false h h' = tokens-IsReply (x ∷ s)

agent_events-IsReply : (c : Codec) (fs : Fields) → IsReply (agent_events c fs)
unfolding agent_events
agent_events-IsReply c fs =
    closing-IsReply (extract_agent_text c fs) _ _ ends (fails _ _ (error_message-nonempty c fs))

named_events-IsReply : (c : Codec) (fs : Fields) (name : Bytes) → IsReply (named_events c fs name)
unfolding named_events
named_events-IsReply c fs name =
    if-IsReply (is_token_event_name name) (tokens-IsReply (extract_content c fs)) (
      if-IsReply (is_done_event_name name) (closes end_event ends) (
        if-IsReply (is_error_event_name name) (error-IsReply c fs) (
          if-IsReply (is_disconnect_event_name name)
            (closes _
              (fails (codes "GATEWAY_DISCONNECTED") (codes "gateway disconnected") (λ e. cc)))
            silent)))

-- A switch that returned, returned a reply.
data Returned : Option (List Event) → Type 0 where
  falls : Returned none
  returns : {es : List Event} → IsReply es → Returned (some es)

if-Returned :
    {x y : Option (List Event)} (b : Bool) → Returned x → Returned y → Returned (if b then x else y)
if-Returned true h k = h
if-Returned false h k = k

status_events-Returned : (c : Codec) (fs : Fields) (s : Bytes) → Returned (status_events c fs s)
unfolding status_events
status_events-Returned c fs s =
    let said = extract_content c fs in
    if-Returned _ falls (
      if-Returned _ (returns (tokens-IsReply said)) (
        if-Returned _ (returns (tokens_end-IsReply said end_event ends))
          (if-Returned _ (returns (error-IsReply c fs)) falls)))

from_switch-IsReply :
    {o : Option (List Event)} {rest : List Event}
    → Returned o
    → IsReply rest
    → IsReply (elim o [ some es ↦ es | none ↦ rest ])
from_switch-IsReply falls k = k
from_switch-IsReply (returns h) k = h

-- Whatever a gateway message holds, what it stands for is at most one token event, which says
-- something, and then at most one event that closes the answer: the end, or an error with a message.
pub map_gateway_event-IsReply : (c : Codec) (env : Envelope) → IsReply (map_gateway_event c env)
unfolding map_gateway_event
map_gateway_event-IsReply c env =
    let fs = decode_payload c env.payload in
    let status = normal (string_value c (lookup (codes "status") fs)) in
    let name = normal env.event in
    from_switch-IsReply (status_events-Returned c fs status) (
      if-IsReply (is_chat_event_name name) (chat_events-IsReply c fs) (
        if-IsReply (is_agent_event_name name) (agent_events-IsReply c fs)
          (named_events-IsReply c fs name)))
