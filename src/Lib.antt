-- ===== src/Lib.antt =====
-- A model of the native P2P client of the Home Assistant add-on for O-KAM cameras, and of the add-on
-- around it.
--
-- The client (src/okam_native/cs2.py) speaks the CS2 protocol over UDP. A session is made from the
-- identifier of a camera and a service parameter, finds the camera with the help of directory
-- servers and relays, carries eight ordered, reliable channels over the datagrams, and sends camera
-- commands and receives video over these.
--
-- Base: the shared tests, lists, bytes, texts, results and actions. A text is a list of code points,
-- a byte a number below 256. A method is an `Action`, a function from the session to a result and
-- a session, so that what was changed before a raise stays changed. `Base.Inet` is the part of
-- the C library that `socket.inet_aton` and `inet_ntoa` name; `Base.Names` makes counter names.
-- Cs2.Cipher, Cs2.Wire: `_key_hash`, `encrypt_packet`, `decrypt_packet`, `_encode_wire_packets`, and the
-- part of `_receive_clear` that turns a datagram into a packet (`open_datagram`).
-- Cs2.Address, Cs2.Service, Cs2.Relay: identifiers, addresses, the service parameter, relay packets.
-- Cs2.Session, Cs2.Create: the fields of `CS2Session` as a record, `__init__`, the counters, sending,
-- receiving and `close`. The world is part of the session: the n-th call of `time.monotonic`,
-- `recvfrom` and `sendto` is answered by a function of n, and all that was sent is kept.
-- Cs2.Data, Cs2.Pump, Cs2.Channel: `_handle_data`, `_handle_ack`, `_retransmit`, `_pump`, `write` and
-- `read_exact`. Cs2.Delivery: the step relation of a channel under reordering, loss and repetition.
-- Cs2.Outreach, Cs2.Connect: `connect`, its timed sends and its ladder of packet types.
-- Cs2.Request, Cs2.Command, Cs2.Login, Cs2.Video: `make_cgi_request`, `write_command`, `read_command`,
-- `parse_result`, `read_command_result`, `authenticate_camera`, `read_video_frame`, `inspect_h264`.
-- Stream: `NativeStreamSession` (src/okam_native/session.py), the stream that several viewers share, as
-- a state machine; processes are numbers, and what a process does is an argument of the
-- operations. Stream.Units holds `_note_media`, `_record_unit` and `_preamble`, Stream.Snapshot `snapshot`
-- and `status`.
-- Acceptance: `evaluate` (src/okam_native/acceptance.py). Json: JSON values, for all parts that read them.
-- Helper: src/okam_native/amd64_helper.py, the process that runs the client: Helper.Input `_read_field`,
-- Helper.Process, Helper.Stream and Helper.Run `run`, Helper.Main `main`, Helper.Summary the report
-- that it prints.
-- P2p: src/okam_native/p2p.py, which runs the helper: P2p.Field `_field`, P2p.Directory
-- `get_service_parameter` and `resolve_client_id`, P2p.Diagnostics, P2p.Report the three probes without a
-- picture, P2p.Snapshot the one with it, P2p.Jpeg `_jpeg_dimensions`, P2p.Line `diagnostic_line`.
-- Helper.Accepted joins the two sides: what the helper prints is what the probes read.
-- Bridge: src/okam_native/bridge.py, the tokens and the URL of `CameraBridge` (Bridge.Host), `do_GET`
-- (Bridge.Handler), `do_PATCH` and `do_POST` (Bridge.Change).
-- Account, Wake: src/okam_native/account.py and wakeup.py.
-- App: okam_native_app/app_entrypoint.py, the options and the account, App.Acceptance
-- `run_p2p_acceptance`, App.Configure `configure_bridge`, App.Startup `load_vendor_runtime` and `main`.
-- Cs2.Progress and Cs2.Kept hold the rules by which properties of a method are put together from
-- those of its parts. Tests runs the model and applies the theorems to concrete sessions.
--
-- Times are milliseconds where the code has seconds as floating point numbers. A `while` loop that
-- waits takes fuel and reports `out_of_fuel`; those of `read_exact`, `write` and `connect` have theorems that
-- say how much is enough. A set of endpoints is a list without repetition, so that the model fixes
-- an order of sending that Python leaves open. Characters outside ASCII are refused where
-- Python would take some of them for digits or letters.
--
-- Outside the client, time is left out: the replies of the wake-up service are those that come before
-- its deadline, and a process is the result that it leaves. The network, the parser of JSON (with the
-- decoding of its bytes), MD5 and the character tables of Unicode are parameters of the definitions. The
-- loop over a JPEG has one more round than the data has bytes, which is enough (P2p.Jpeg.Ends). The
-- stream loop of the helper goes on for as long as the camera sends, so that its fuel is the number of
-- frames that are looked at.
--
-- Not modelled: redaction.py, the kills and waits of processes in p2p.py and bridge.py, the parsing of HTTP in front of the bridge, the signature of
-- wake-up messages, custom_components, tools and native.

pub mod Base
pub mod Cs2
pub mod Acceptance
pub mod Account
pub mod App
pub mod Bridge
pub mod Helper
pub mod Json
pub mod P2p
pub mod Stream
pub mod Wake
pub mod Tests
