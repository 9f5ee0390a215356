-- ===== src/Lib.antt =====
-- A verification library for enclout: a control plane that takes requests for access to a
-- connector, and a local agent that asks the user, verifies an attestation and installs an SSH
-- key.
--
-- The parts, and how they interact:
--
-- * The request store (services/control-plane/internal/requests: model.go, id.go, store.go) holds
--   connection requests, install sessions and their one-time tokens. `Requests.Store` models
--   `InMemoryStore` with Create, Get, ListPendingForDevice, SetLocalDecision and SetResult, and
--   `Requests.Install` with the operations on install sessions; `Requests.Model` has the types.
--   Each method is a function from the store to its result and the new store, and takes the
--   readings of the clock and the bytes of `rand.Read` as arguments: the lock makes a call one
--   step, and `Requests.Calls` makes every interleaving a list of calls. `Requests.Lifecycle` is
--   about requests and `Requests.Tokens` about install tokens.
-- * The file store (file_store.go) puts the in-memory store behind a file: `Requests.FileStore`,
--   with `load`, `persistLocked` and every method. The disk holds the file and the temporary
--   file, and each call takes what goes wrong in it; JSON is the parameter `Codec`, with the law
--   that what is marshalled is read back.
-- * The signers (services/control-plane/internal/signing/attestation_bundle.go): `Signing`.
--   Base64, Ed25519 and the encoding of a payload are the record `Signatures`; `SignatureLaws`
--   says what the two programs rely on. `Signing.Sorted`, `Signing.Signers` and
--   `Signing.Accepted` lead to what the agent makes of a keyset and a signature.
-- * The HTTP side of the control plane: `Http` has the requests, the answers and the interface
--   `RequestStore`; `Http.Path` and `Http.Auth` model parseIDFromPath and auth.go;
--   `Http.Handlers` and `Http.Bundles` the handlers of services/control-plane/internal/http;
--   `Http.Intents` the handler of services/control-plane/internal/openclaw/intent_handler.go;
--   `Http.Routes` the routes of services/control-plane/cmd/api/main.go, with what `http.ServeMux`
--   does. `Http.Memory` puts the in-memory store behind them (the program has the file store
--   there: its memory is the same, but a write that fails is then an answer, which no request
--   gets here), `Http.Issued` and `Http.Advances` relate requests to calls of the store,
--   `Http.Confirmed` follows sequences of requests, `Http.Served` is about bundles, and
--   `Http.Reached` says which requests reach the function for connection requests, and
--   `Http.Wire` models the agent's calls (services/local-agent/internal/api/client.go).
-- * The checks of a bundle (services/local-agent/internal/verify): `Verify.Policy` (policy.go),
--   `Verify.Signature` (control_plane_signature.go), `Verify.Verifier` (verifier.go and
--   report_data.go), `Verify.Dcap` (dcap_http.go) and `Verify.Types`. SHA-256, base64 and Ed25519
--   are the record `Crypto`, without laws; the DCAP service is a function from quotes to answers.
-- * The prompts (services/local-agent/internal/approval): `Approval`, on what the dialog programs
--   and the terminal answer; `Approval.Laws`.
-- * The keyset source (services/local-agent/internal/trust/keyset_source.go): `Trust`. A call
--   takes the reading of the clock and what the fetcher gives. `Trust.Keys` is about single
--   keysets, `Trust.Clean` about the maps that are held, `Trust.Recent` about sequences of calls.
-- * The agent's flow (services/local-agent/internal/flow/runner.go): `Flow` models `Process` as a
--   function of what the collaborators answer to the error and the list of the calls it makes.
--   `Flow.Installs` has the rule by which all statements about a run are proved, `Flow.Reports`
--   the reports, `Flow.Payload` the parsing, and `Flow.Attested` puts the verifier, the prompts
--   and the keyset source in, as services/local-agent/cmd/agent/main.go does.
-- * The agent's process (services/local-agent/cmd/agent/main.go): `AgentCommand` reads the
--   settings, as a function of the environment, `AgentCommand.Durations` and `AgentCommand.Lists`
--   are about durations and lists among them, `AgentCommand.Polling` models the loop on a list of
--   events, and `AgentCommand.Steps`, `AgentCommand.Runs` and `AgentCommand.Started` are about
--   the process as a whole.
-- * The installer (services/local-agent/internal/install/runner.go): `Installer`, as a function
--   to the error and the calls like the flow; `Installer.Checks`, `Installer.Reports`;
--   `Installer.Starting` relates the service that it starts to the settings of the agent.
-- * The command of the installer (services/local-agent/cmd/install/main.go): `InstallCommand`,
--   with the flags of `flag.FlagSet` in `InstallCommand.Flags`; `InstallCommand.Handed`.
-- * The service managers (services/local-agent/internal/install/launchd.go and systemd.go):
--   `Services` with `Services.Systemd` and `Services.Launchd`, on what the file system and the
--   commands answer. `Services.Escapes` has the two ways to escape a text; `Services.Quoting`,
--   `Services.Units` and `Services.Markup` have independent readers of what is written.
-- * The key manager (services/local-agent/internal/sshkeys/manager_unix.go): `SshKeys`, with
--   filepath.Join and a map of files; `SshKeys.Atomic`.
--
-- Shared: `Prelude` has the names that all modules use, `GoMap` Go's maps as association lists
-- whose order stands for the runtime's, and `Text` the functions of `strings` and `encoding/hex`
-- that the program calls. `Verify.Toy` and the modules named Tests hold runs and instances.
--
-- Every definition runs by recursion on lists, texts and numbers; no fuel is needed anywhere.
-- Times are natural numbers of nanoseconds and durations integers, both without a bound; the
-- program adds minutes to the present. ToLower is exact for what the program compares its result
-- with.
--
-- Not modelled: the encoding and decoding of JSON and time.ParseDuration (parameters); network
-- transport, timeouts and contexts, whose failures are among the answers of the collaborators;
-- the settings of the control plane (services/control-plane/internal/config); the reading of
-- answers in client.go; VerifyBundle of the signing package, which the services do not call; and
-- services/connector-tee, which is JavaScript.
pub mod AgentCommand
pub mod Approval
pub mod Flow
pub mod GoMap
pub mod Http
pub mod InstallCommand
pub mod Installer
pub mod Prelude
pub mod Requests
pub mod Services
pub mod Signing
pub mod SshKeys
pub mod Text
pub mod Trust
pub mod Verify
