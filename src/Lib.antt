-- ===== src/Lib.antt =====
-- OpenClawBridge: a relay that joins a client to the connector which registered the client's
-- access code, and a connector that hands the client's events to a gateway. This library models
-- the Go code of the repository and proves what makes it correct.
--
-- A client opens a WebSocket to the relay (/client) and a connector another (/tunnel). Both
-- speak JSON control messages in text frames; the events between client and connector travel in
-- binary DATA frames, which the relay routes by the session id in their header and does not
-- read.
--
-- The files and the code that they model:
--
-- - Text, GoMap, Json: what the program uses of Go's strings, maps and encoding/json. A
--   string is the list of its bytes, a map an association list, and a struct is read from and
--   written to a JSON value by its tags. They are used by every part below.
-- - Protocol/Frame: BuildDataFrame and ParseDataFrame of shared/protocol/dataframe.go are
--   build_data_frame and parse_data_frame.
-- - Protocol/Control: shared/protocol/control.go; EncodeControl, DecodeControl and
--   HashAccessCode keep their names.
-- - Protocol/Event: shared/protocol/event.go, EncodeEvent and DecodeEvent.
-- - Relay/Stores: the packages hub, authmap, sessions, metrics and ratelimit of relay/pkg. A
--   method of a store is a function of its map, with the store's name in front: sessions_get
--   is (*sessions.Store).Get. A *hub.Peer is a Peer with an address, by which pointers are
--   compared.
-- - Relay/Network: the connections, where a write may fail.
-- - Relay/Server and Relay/Accept: relay/main.go. A handler is a function of the server's
--   state; routeBinary is route_binary, handleTunnel is handle_tunnel, and so on. The state
--   holds the three stores, the counters, the network and the address of the next peer.
-- - Relay/Steps: the relay as a whole, driven by a list of inputs in any order.
-- - Relay/Spec: the relay's stores without its network, with their invariant and the moves
--   that keep it; Relay/Spec/Transition: what each input does to them, written without the
--   handlers.
-- - Relay/Routing, Closing, Leaving, Opening, Takeover, Accounting, Ids: what the handlers
--   promise, one module for each promise.
-- - Connector/Payload and Connector/Events: connector/pkg/gatewayclient/events.go, what is
--   read from the payload of a gateway message, and the events that it stands for.
--   extractRunID is extract_run_id, and so on. Connector/Payload/Places: where a payload can
--   hold a run id.
-- - Connector/Gateway: connector/pkg/gatewayclient/client.go, the tables that tie requests
--   and runs to sessions, sending, responses and events; Connector/Handshake: the reads of
--   its handshake, waitForChallenge and performConnect; Connector/Reconnect: its connect
--   request, its serve loop and Run with the delays between attempts.
-- - Connector/Bridge: connector/pkg/bridge/gateway_bridge.go, between the sessions of the
--   relay and any gateway that has the operations of GatewaySender.
-- - Connector/Echo: connector/pkg/bridge/bridge.go, with echo_ in front of the names of its
--   methods.
-- - Connector/Settings, Connector/Config and Connector/Scopes: the structs of
--   connector/pkg/config/config.go and their JSON, its Load, and normalizeScopes of
--   connector/pkg/gatewayclient/config.go.
-- - Relay/Tasks: relay/main.go once more, by single accesses. A goroutine is a Task, its
--   accesses to the stores, the counters and the connections, one after the other; in
--   Relay/Tasks/System any goroutine makes the next access. The reads of a connection are
--   given with it, and end with an error, as every connection does.
-- - Connector/RelayClient: connector/pkg/relayclient/client.go, with link_ in front of the
--   names of its methods; what its callbacks act on is a Host.
-- - Connector/Wiring: connector/main.go, the relay client, the bridge and the gateway client
--   put together, driven by a list of inputs in any order; Connector/Wiring/Running: Run of
--   the relay client, by such inputs. The context of a client is done behind the attempts
--   that it is given.
-- - Connector/Ending: the contexts of the clients, and the end of main in connector/main.go.
-- - Cli/Connect, Cli/Reader and Cli/Prompt: cli/main.go, the opening of a session, the
--   reading goroutine with its two channels, and the prompt with its loop over the answer,
--   driven by a list of inputs in any order.
-- - EndToEnd: the command line client and the connector at the two ends of a session;
--   EndToEnd/Pairing: how it opens, over the relay; EndToEnd/RoundTrip: with the relay
--   between them; EndToEnd/Shown: the answer on the client's side.
-- - Tests: runs on concrete inputs, and each result that has a hypothesis, at such an input.
--
-- Parameters. The text of JSON, SHA-256, random bytes, the outcome of each write and the reads
-- of each connection are arguments of the model; nothing is assumed of them but what a theorem
-- names. Go's strings.ToLower is modelled as far as comparisons with ASCII words can tell.
--
-- Bounds and fuel. The counters of bytes and errors are 64-bit patterns and wrap. The two
-- searches through nested JSON objects have the size of the payload as fuel; it is enough, since
-- an object is smaller than the one that holds it (Connector/Payload/Fuel). Recursion is
-- otherwise on lists of inputs, which are as long as one likes. The delays of the gateway client
-- are 64-bit patterns, compared with their sign. The channel of events of the command line
-- client holds 16.
--
-- Not modelled. The goroutines of the connector, and those of the command line client,
-- interleave by whole messages, not by single accesses as those of the relay do. A read deadline
-- that passes is a read that fails. Logging, flags, HTTP serving, signals, time and the
-- WebSocket library are left out.
pub mod Common
pub mod Text
pub mod GoMap
pub mod Json
pub mod Protocol
pub mod Relay
pub mod Connector
pub mod Cli
pub mod EndToEnd
mod Tests
