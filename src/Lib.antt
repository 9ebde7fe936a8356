-- ===== src/Lib.antt =====
-- quish, a remote shell over HTTP/3: the parts that decide who gets in, as whom, and what reaches
-- a channel. Paths are those of the repository.
--
-- Proto.Frame models the frame codec of quish-proto/src/lib.rs (`encode`, `decode`, `parse_len`,
-- `take_frame`). Session.FrameReader models the reader of quish-server/src/session.rs
-- (`FrameReader::next_frame`, `spawn_frame_reader`), which cuts a channel's bytes into messages.
-- Proto.Message models `ChannelMessage`, the challenge headers and `version_supported` of
-- quish-proto/src/lib.rs; Session.Pump `pump_shell`, `pump_exec`
-- and `pump_forward`, and Session.Forward the
-- address policy of `serve_forward` and `serve_remote_forward_listen` with `park_conn` and
-- `take_conn`, of quish-server/src/session.rs. What a `select!` receives is a list of events.
--
-- Auth models quish-auth/src: Auth.Types and Auth.Header the types, `parse_authorization` and the
-- header builders, Auth.Registry `UserPolicy`, `Registry` and `DevInsecureBackend` (all of lib.rs),
-- Auth.Totp totp.rs, and Auth.Pubkey pubkey.rs.
--
-- Server models quish-server/src: Server.Transport `handle_request` and `Backend::authenticate` of
-- transport.rs, Server.Challenges the `ChallengeStore` of transport.rs,
-- Server.Monitor the `State` and `SessionIndex` of monitor.rs with the requests of ipc.rs,
-- Server.Monitor.Requests the loop `serve_control`, Server.SignThrottle the token bucket in front
-- of the host key, Server.RateLimit ratelimit.rs, and Server.PamEnv
-- the `encode_pam_env` and `decode_pam_env` of ipc.rs.
--
-- Server.Worker models `MonitorClient` and `serve_channel` of worker.rs: what a channel asks of the
-- monitor, and what it leaves there. Server.Worker.Sessions puts it on Server.Monitor.Requests, with
-- the requests of other channels between its calls and with calls that fail.
--
-- Client models quish-client/src: Client.KnownHosts the known_hosts file and `TofuVerifier` of
-- connect.rs, Client.Target `parse_target` and `resolve_target` of main.rs with config.rs,
-- Client.ForwardSpec `split_forward_tokens`, `parse_forward` and `parse_remote_forward` of main.rs,
-- and Client.Copy cp.rs: Spec `parse_cp_spec`, Paths the destinations, Walk `collect_walk`,
-- Download `download_one`, and Upload `upload_one` and `upload_tree`. A directory is a tree of
-- entries, the local files are a function of the path, and what the connection and the disk answer
-- is part of the input.
--
-- Client.Login models `build_authorization`, `open_channel` and the channels of a forward in main.rs;
-- its Wire puts `handle_request` of the server behind them. Client.Bridge models `bridge`, and
-- Client.Terminal `run_channel` of terminal.rs. Server.PrivDrop models
-- quish-server/src/privdrop.rs: a run is a log of system calls, which the kernel, a parameter,
-- answers. Server.SignProxy models signproxy.rs with `sign_write` and
-- `sign_read` of ipc.rs, Session.Forward.Listen the accept loop of session.rs, Auth.Oidc
-- quish-auth/src/oidc.rs, and Server.Settings config.rs with the merge in main.rs of the server.
--
-- How the parts meet: the worker passes a connection's `Authorization` header to the monitor, whose
-- `Authenticate` asks the registry (Host.registry_verdict stands for `Registry::verdict`, which
-- Auth.Registry models) and binds the user to the connection; the spawn requests start processes
-- as that user and `Close` takes everything back. The TOTP backend parks its state in the
-- challenge store of the connection between its two rounds.
--
-- Base has the shared names: Boolean tests and conditionals over the native numbers (Base.Compare),
-- lists, byte strings with Rust's text methods and UTF-8 (Base.Text), and maps as functions
-- (Base.Table). Samples has the concrete instances of the parameters for the modules named Tests.
--
-- A `u32` or `u64` is a native number, with its wrap-around or saturation written where the code
-- can reach it. Times are native numbers: nanoseconds, or seconds of Unix time in Auth. A clock,
-- a random token or the content of a file is an argument of the function that reads it.
-- Parameters stand for the crates: Codec for postcard, Base64, Hmac for HMAC-SHA1, Crypto for
-- ed25519-dalek and ssh-key, and Host for processes, PAM and the registry under the monitor; their
-- laws are the documented ones that the code relies on.
--
-- Fuel: `read_loop` has one round for each byte that the reader holds or receives, and one more;
-- each frame takes four bytes at least, and the theorem on `spawn_frame_reader` says that all
-- messages arrive. `trim_loop` has one round for each byte of the text. `split_loop` and the
-- `send_chunks` of an upload have one round more than there are bytes, and a theorem of each says
-- that this is enough.
--
-- Not modelled: the QUIC and HTTP/3 set-up, the start of the worker and of the
-- monitor, PAM, the sessions of the dev mode, the raw mode of the terminal, and the parsing of flags
-- and of configuration files: they are I/O, or calls of crates. So are the failure to send a
-- 200 before a channel is served, and the panics of `expect` where a request or an environment is
-- built, but for the NUL in `envp_of`.
pub mod Base
pub mod Samples
pub mod Proto
pub mod Session
pub mod Auth
pub mod Server
pub mod Client
