-- ===== src/Connector/RelayClient.antt =====
-- connector/pkg/relayclient/client.go: the connector's end of the connection to the relay. Its
-- callbacks act on what holds the client, a `Host` of any type. A write is numbered, and `fails` gives
-- the error of each that fails; what was written is a list, the newest last.
use open_claw_bridge.Common.{
  ℕ, suc, Bool, true, false, not, Option, none, some, List, [], ◌∷◌, ◌++◌, if◌then◌else◌, Result,
  ok, err, pos,
}
use open_claw_bridge.Text.{Bytes}
use open_claw_bridge.Json.{Codec}
use open_claw_bridge.Protocol.Frame.{FrameError, DataFrame, build_data_frame, parse_data_frame}
use open_claw_bridge.Protocol.Control.{
  ControlMessage, ControlError, no_message, encode_control, decode_control, type_register,
  type_heartbeat,
}
use open_claw_bridge.Relay.Network.{Message, Read, text, binary, received, read_error}

pub record LinkEnv : Type 0 where
  pub codec : Codec
  pub access_code_hash : Bytes
  pub fails : ℕ → Option Bytes

-- `connected` is conn != nil.
pub record RelayClient : Type 0 where
  pub connected : Bool
  pub attempts : ℕ
  pub written : List Message

abbrev pub new_relay_client : RelayClient
new_relay_client = record { connected = false; attempts = 0; written = [] }

pub data LinkError : Type 0 where
  not_connected : LinkError
  bad_frame : FrameError → LinkError
  write_failed : Bytes → LinkError

unfoldable pub link_set : RelayClient → RelayClient
link_set l = record l { connected = true }

unfoldable pub link_close : RelayClient → RelayClient
link_close l = record l { connected = false }

-- conn.WriteMessage, by the outcome of this write.
abbrev pub written_or : Option Bytes → Message → RelayClient → RelayClient × Option LinkError
written_or none m l = (record l { attempts = suc l.attempts; written = l.written ++ m ∷ [] }, none)
written_or (some e) m l = (record l { attempts = suc l.attempts }, some (write_failed e))

unfoldable pub link_write : LinkEnv → Message → RelayClient → RelayClient × Option LinkError
link_write env m l =
    if not l.connected then (l, some not_connected) else written_or (env.fails l.attempts) m l

-- Control messages always encode.
unfoldable pub link_control :
    LinkEnv → ControlMessage → RelayClient → RelayClient × Option LinkError
link_control env m l = link_write env (text (encode_control env.codec m)) l

abbrev pub write_frame :
    LinkEnv → Result FrameError Bytes → RelayClient → RelayClient × Option LinkError
write_frame env (err e) l = (l, some (bad_frame e))
write_frame env (ok f) l = link_write env (binary f) l

unfoldable pub link_data :
    LinkEnv → Bytes → ℕ → Bytes → RelayClient → RelayClient × Option LinkError
link_data env session_id flags payload l =
    write_frame env (build_data_frame session_id flags payload) l

-- What holds a relay client, with its callbacks onControl and onData.
pub record Host (S : Type 0) : Type 0 where
  pub link : S → RelayClient
  pub with_link : RelayClient → S → S
  pub on_control : ControlMessage → S → S
  pub on_data : Bytes → ℕ → Bytes → S → S

abbrev pub register_request : LinkEnv → ControlMessage
register_request env = record no_message {
  type = type_register;
  access_code_hash = env.access_code_hash;
  generation = pos 1;
  caps = some (record { e2ee = false });
}

-- What happens on an open connection: a read of the loop, or a tick of the heartbeat.
pub data Activity : Type 0 where
  incoming : Read → Activity
  heartbeat : Activity

module _ {S : Type 0} where
  abbrev pub on_text : Host S → Result ControlError ControlMessage → S → S
  on_text h (err e) s = s
  on_text h (ok m) s = h.on_control m s

  abbrev pub on_binary : Host S → Result FrameError DataFrame → S → S
  on_binary h (err e) s = s
  on_binary h (ok d) s = h.on_data d.session_id d.flags d.payload s

  -- The switch on the type of a message.
  unfoldable pub receive : Host S → Codec → Message → S → S
  receive h c (text b) s = on_text h (decode_control c b) s
  receive h c (binary b) s = on_binary h (parse_data_frame b) s

  unfoldable pub on_activity : Host S → LinkEnv → Activity → S → S
  on_activity h env (incoming read_error) s = h.with_link (link_close (h.link s)) s
  on_activity h env (incoming (received m)) s = receive h env.codec m s
  on_activity h env heartbeat s =
      h.with_link (link_control env (record no_message { type = type_heartbeat }) (h.link s)).0 s

  abbrev pub settle_register : Host S → RelayClient × Option LinkError → S → S
  settle_register h (l, none) s = h.with_link l s
  settle_register h (l, some e) s = h.with_link (link_close l) s

  -- connectAndServe up to its loop, by whether Dial succeeded: the connection is set and REGISTER is
  -- sent, and a failure closes it again.
  unfoldable pub begin_serve : Host S → LinkEnv → Bool → S → S
  begin_serve h env false s = s
  begin_serve h env true s =
      settle_register h (link_control env (register_request env) (link_set (h.link s))) s

-- One attempt of Run: what Dial gives, what happens on the connection until a read fails, and the world
-- in which each callback runs, of which the last one goes with that read.
pub record Attempt (W : Type 0) : Type 0 where
  pub dialed : Bool
  pub activities : List (W × Activity)
  pub last : W

module _ {S W : Type 0} (host : W → Host S) (env : LinkEnv) where
  -- The loop of connectAndServe, which a read that fails ends.
  unfoldable pub link_serve : List (W × Activity) → W → S → S
  link_serve [] w s = on_activity (host w) env (incoming read_error) s
  link_serve ((v, incoming read_error) ∷ rest) w s =
      on_activity (host v) env (incoming read_error) s
  link_serve ((v, incoming (received m)) ∷ rest) w s =
      link_serve rest w (on_activity (host v) env (incoming (received m)) s)
  link_serve ((v, heartbeat) ∷ rest) w s = link_serve rest w (on_activity (host v) env heartbeat s)

  unfoldable pub link_attempt : Attempt W → S → S
  link_attempt r s =
      let s' = begin_serve (host r.last) env r.dialed s in
      if ((host r.last).link s').connected then link_serve r.activities r.last s' else s'

  -- Run until the context is done, by the attempts before that.
  unfoldable pub link_run : List (Attempt W) → W → S → S
  link_run [] w s = (host w).with_link (link_close ((host w).link s)) s
  link_run (r ∷ rs) w s = link_run rs w (link_attempt r s)
