-- ===== src/Connector/Gateway/Tracks.antt =====
-- connector/pkg/gatewayclient/client.go: what a message of the gateway does to the tables that tie
-- requests and runs to sessions, and to whom its events go.
use open_claw_bridge.Common.{
  Bool, true, false, ◌||◌, some, List, [], ◌∷◌, ◌++◌, ◌≡◌, ◌≢◌, refl, sym, ap, ◌∙◌, Bool-cases, inl,
  inr, arith, append-nil, append_assoc,
}
use open_claw_bridge.Text.{Bytes, text_eq}
use open_claw_bridge.Text.Laws.{text_eq_refl}
use open_claw_bridge.GoMap.{Map, get, delete_where}
use open_claw_bridge.Protocol.Event.{Event, event_end, event_error}
use open_claw_bridge.Connector.Gateway.{
  Client, clear_session_tracks, emit_event, emit_step, emit_all,
}

-- No request and no run is tied to the session.
abbrev pub IsUntracked : Bytes → Client → Type 0
IsUntracked sid s =
    ((k : Bytes) → get s.req_to_session k ≢ some sid)
    × ((k : Bytes) → get s.run_to_session k ≢ some sid)

-- The session's answer is closed by one of the events.
abbrev pub closing : List Event → Bool
closing [] = false
closing (e ∷ es) = (text_eq e.type event_end || text_eq e.type event_error) || closing es

delete_where_none :
    (sid : Bytes) (m : Map Bytes) (k : Bytes)
    → get (delete_where (λ v. text_eq v sid) m) k ≢ some sid
unfolding get delete_where
delete_where_none sid [] k = λ e. cc
delete_where_none sid ((j, v) ∷ m) k =
    λ h. ground (arith, delete_where_none sid m k, text_eq_refl sid, text_eq_refl v)

pub clear_session_tracks-IsUntracked :
    (sid : Bytes) (s : Client) → IsUntracked sid (clear_session_tracks sid s)
unfolding clear_session_tracks
clear_session_tracks-IsUntracked sid s =
    (delete_where_none sid s.req_to_session, delete_where_none sid s.run_to_session)

-- The events that reach handlers.OnEvent, each with its session.
abbrev pub tagged : Bytes → List Event → List (Bytes × Event)
tagged sid [] = []
tagged sid (e ∷ es) = (sid, e) ∷ tagged sid es

-- The events go to this session, in order, after those emitted before; if they close the answer, no
-- track of the session is left, and if they do not, no track of a request is lost.
pub record IsAnswer (sid : Bytes) (es : List Event) (s s' : Client) : Type 0 where
  pub told : s.listening ≡ true → s'.emitted ≡ s.emitted ++ tagged sid es
  pub released : closing es ≡ true → IsUntracked sid s'
  pub kept : closing es ≡ false → s'.req_to_session ≡ s.req_to_session
  pub written_same : s'.written ≡ s.written
  pub listening_same : s'.listening ≡ s.listening

abbrev pub closes_answer : Event → Bool
closes_answer e = text_eq e.type event_end || text_eq e.type event_error

emit_step_listens :
    (sid : Bytes) (e : Event) (s : Client)
    → ((emit_step sid e s).listening ≡ s.listening) × ((emit_step sid e s).written ≡ s.written)
unfolding emit_step emit_event clear_session_tracks
emit_step_listens sid e s = ground arith

emit_step_tells :
    (sid : Bytes) (e : Event) (s : Client)
    → s.listening ≡ true
    → (emit_step sid e s).emitted ≡ s.emitted ++ (sid, e) ∷ []
unfolding emit_step emit_event clear_session_tracks
emit_step_tells sid e s h = ground arith

emit_step_keeps :
    (sid : Bytes) (e : Event) (s : Client)
    → closes_answer e ≡ false
    → ((emit_step sid e s).req_to_session ≡ s.req_to_session)
      × ((emit_step sid e s).run_to_session ≡ s.run_to_session)
unfolding emit_step emit_event
emit_step_keeps sid e s h = ground arith

emit_step_releases :
    (sid : Bytes) (e : Event) (s : Client)
    → closes_answer e ≡ true
    → IsUntracked sid (emit_step sid e s)
unfolding emit_step
emit_step_releases sid e s h = rw h (clear_session_tracks-IsUntracked sid (emit_event sid e s))

or_false : (a b : Bool) → (a || b) ≡ false → (a ≡ false) × (b ≡ false)
or_false a b h = ground arith

or_left : (a b : Bool) → (a || b) ≡ true → b ≡ false → a ≡ true
or_left a b h q = ground arith

emit_all_listens :
    (sid : Bytes) (es : List Event) (s : Client)
    → ((emit_all sid es s).listening ≡ s.listening) × ((emit_all sid es s).written ≡ s.written)
unfolding emit_all
emit_all_listens sid [] s = (refl, refl)
emit_all_listens sid (e ∷ es) s =
    let (l, w) = emit_all_listens sid es (emit_step sid e s) in
    (l ∙ (emit_step_listens sid e s).0, w ∙ (emit_step_listens sid e s).1)

emit_all_tells :
    (sid : Bytes) (es : List Event) (s : Client)
    → s.listening ≡ true
    → (emit_all sid es s).emitted ≡ s.emitted ++ tagged sid es
unfolding emit_all
emit_all_tells sid [] s h = sym (append-nil s.emitted)
emit_all_tells sid (e ∷ es) s h =
    emit_all_tells sid es (emit_step sid e s) ((emit_step_listens sid e s).0 ∙ h)
    ∙ ap (λ t. t ++ tagged sid es) (emit_step_tells sid e s h)
    ∙ append_assoc s.emitted ((sid, e) ∷ []) (tagged sid es)

emit_all_keeps :
    (sid : Bytes) (es : List Event) (s : Client)
    → closing es ≡ false
    → ((emit_all sid es s).req_to_session ≡ s.req_to_session)
      × ((emit_all sid es s).run_to_session ≡ s.run_to_session)
unfolding emit_all
emit_all_keeps sid [] s h = (refl, refl)
emit_all_keeps sid (e ∷ es) s h =
    let (h₁, h₂) = or_false (closes_answer e) (closing es) h in
    let (r, t) = emit_all_keeps sid es (emit_step sid e s) h₂ in
    (r ∙ (emit_step_keeps sid e s h₁).0, t ∙ (emit_step_keeps sid e s h₁).1)

IsUntracked-same :
    (sid : Bytes) (s s' : Client)
    → IsUntracked sid s
    → (s'.req_to_session ≡ s.req_to_session) × (s'.run_to_session ≡ s.run_to_session)
    → IsUntracked sid s'
IsUntracked-same sid s s' h (p, q) = (λ k. rw p (h.0 k), λ k. rw q (h.1 k))

emit_all_releases :
    (sid : Bytes) (es : List Event) (s : Client)
    → closing es ≡ true
    → IsUntracked sid (emit_all sid es s)
unfolding emit_all
emit_all_releases sid [] s h = cc
emit_all_releases sid (e ∷ es) s h = elim (Bool-cases (closing es)) [
  | inl q ↦ emit_all_releases sid es (emit_step sid e s) q
  | inr q ↦
      IsUntracked-same sid (emit_step sid e s) (emit_all sid es (emit_step sid e s))
        (emit_step_releases sid e s (or_left (closes_answer e) (closing es) h q))
        (emit_all_keeps sid es (emit_step sid e s) q)
]

pub emit_all-IsAnswer :
    (sid : Bytes) (es : List Event) (s : Client) → IsAnswer sid es s (emit_all sid es s)
emit_all-IsAnswer sid es s = record {
  told = emit_all_tells sid es s;
  released = emit_all_releases sid es s;
  kept = λ h. (emit_all_keeps sid es s h).0;
  written_same = (emit_all_listens sid es s).1;
  listening_same = (emit_all_listens sid es s).0;
}
