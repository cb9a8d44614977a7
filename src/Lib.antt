-- ===== src/Lib.antt =====
-- nk gives a person or a service account ssh access to the servers of a Nokku workspace. The
-- backend says which targets there are and signs short certificates; nk keeps a snapshot of that on
-- disk, writes an ssh_config and a known_hosts from it, and serves as ssh's ProxyCommand. For a
-- server without the Nokku daemon, nk sync connects as root and installs the CA and the principals.
-- The access snapshot (State) feeds the generated files (Ssh/Config) and the choice of a target
-- (Cmd/Target); the certificates (Ssh/Certs) are renewed by the client (Client/Cert); nk sync
-- (Cmd/Sync) joins the probe and the plan of a host (Manual) with the client's calls. A sync
-- (Client/Sync) goes through the trust of the server (Client/Trust), the sign-in (Client/Login) and
-- the backend's answer to a snapshot on disk; nk proxy (Cmd/Proxy) falls back to that snapshot
-- (Client/Fallback), has the certificate renewed and dials, if need be through the relay
-- (Client/Relay). nk doctor (Doctor) looks at what these leave, and repairs it.
--
-- Which file models which part:
--   State.antt              internal/state/state.go: the types and State's methods
--   State/Disk.antt         Load, LoadCache, Save and MarkSyncFailed as functions of the files
--   State/Access.antt       internal/state/map.go: FromAccess, SSHCAs, MapTarget, plain, validIDs
--   Ssh/Certs.antt          internal/ssh/certs.go: ParseCert, CheckCert, CertFresh, CleanupCerts
--   Ssh/Own.antt            internal/ssh/own.go: ownBlock.matches, configLine, matchHosts
--   Ssh/Own/Reader.antt     internal/ssh/own.go: ownReader.read, with the files as functions
--   Ssh/Glob.antt           path.Match of Go's library, for names without a slash
--   Ssh/Config.antt         internal/ssh/config.go: hostAliases, the two renderers, the Include line
--   Ssh/Written.antt        internal/ssh/config.go: WriteConfigs, ensureInclude, RemoveInclude
--   Ssh/Command.antt        internal/ssh/config.go: nkCommand
--   Ssh/Agent.antt          internal/ssh/agent.go: signOnly, identity.keyring, RunAgent, EnsureAgent
--   Ssh/Keys.antt           internal/ssh/keys.go: SetupKey, PubKey
--   Ssh/Proxy.antt          internal/ssh/proxy.go: Proxy's guards and its loop over events
--   Manual.antt             internal/manual/manual.go: ParseProbe, localAccounts, renderPrincipals
--   Manual/Plan.antt        internal/manual/script.go: NewPlan
--   Manual/Script.antt      internal/manual/script.go: Plan.Script, q, ParseResult, Output
--   Cmd/Target.antt         internal/cmd/target.go: rootHost, findTarget, resolveCA, remote
--   Cmd/Sync.antt           internal/cmd/target.go: probe, newTarget, targetSync up to its connection
--   Cmd/Sync/Run.antt       internal/cmd/target.go: targetSync, applyPlan, targetDelete as effects
--   Cmd/Load.antt           internal/cmd/cmd.go: loadState, plainHTTP
--   Cmd/Proxy.antt          internal/cmd/proxy.go: the action of proxyCMD
--   Cmd/Prepare.antt        internal/cmd/proxy.go: renewCert
--   Cmd/Listing.antt        internal/cmd/list.go, internal/cmd/login.go: nk ls, nk logout
--   Client/Login.antt       internal/client/login.go: ensureSession, pollDeviceToken
--   Client/Login/Device.antt internal/client/login.go: deviceLogin, beginDeviceAuth
--   Client/Login/Post.antt  internal/client/login.go: postForm
--   Client/Trust.antt       internal/client/trust.go: pinServer, confirmServer, keepCA, ask
--   Client/Sync.antt        internal/client/client.go: Sync, sync, Logout
--   Client/Requests.antt    internal/client/client.go: TargetPrincipals, CreateTarget, ListSSHCAs
--   Client/Relay.antt       internal/client/relay.go: Relay, relayStream
--   Client/Grant.antt       internal/client/grant.go: ResolveGrants and its lookups
--   Client/New.antt         internal/client/client.go: New, and nk proxy's backend
--   Client/Cert.antt        internal/client/client.go: EnsureCert
--   Client/Fallback.antt    internal/client/client.go: SyncOrCache
--   Ui.antt                 internal/ui/ui.go: color, Plain, HumanizeDuration
--   Doctor.antt             internal/doctor: the report, ExitCode, checkSystem, summarize
--   Doctor/Checks.antt      internal/doctor/doctor.go: checkAccount, checkSSH
--   Doctor/Repair.antt      internal/doctor/doctor.go: repair, Run
-- The modules below these hold their theorems, Base the shared helpers, and Tests the theorems at
-- concrete inputs.
--
-- How the code is read:
--   A text is a list of code points of valid UTF-8, so that a loop over bytes and one over runes
--   agree on the ASCII characters that the code looks for. A Go map is an association list, an
--   error a value, a nil pointer `none`. State is passed on explicitly. A Time is a number of
--   nanoseconds from the earliest instant that time.Time holds, a Duration a signed one that
--   saturates as Go's does, and time.Unix wraps as it does in Go.
--   A command of Cmd/Sync yields the list of its effects, a Proxy consumes the list of what its
--   select receives, and the polling of a sign-in consumes its exchanges with the server, so that
--   the theorems hold for every order in which these arrive. The interval of a sign-in is a natural
--   number, where 0 stands for those that are not positive; the wait made of it wraps around in 64
--   bits, and the timer of 15 minutes is one of the events.
--   Code of other libraries is an argument: the parsing of ssh keys, Unicode's case tables beyond
--   ASCII, net.SplitHostPort, the reading of time stamps, the file system, the answers of the host
--   and of the backend, the library that pins a CA, the keys of the machine, and fsutil.WriteFile,
--   of which the theorems about certificates suppose that a write is all or nothing; elsewhere a
--   Boolean says whether a write succeeds, and one that fails leaves the file as it is.
--   A sync gets an attempt for each of its calls of sync, with the answers of that call; nk proxy
--   and nk prepare read the clock once. A relay's stream is the list of what it receives, and at
--   the end of that list it has ended.
--   The recursion of ownReader.read runs on fuel 17: a file at depth 0 and includes to depth 16,
--   behind which the code itself stops. EnsureAgent waits 50 rounds, as in the code. The digits
--   of a number run on fuel that is larger than the number, which number-decimal shows is enough.
--   All other loops recurse on their list.
--
-- Not modelled: connect of nk sync and nk rm, behind which their effects begin; the relay's use of
-- backend behind nk proxy's call of ssh.Proxy; a failed listing of the certificates; a target
-- without accounts that shares its id with one that has some; the libraries' requests, the sockets
-- and the idle timer of the agent, the TPM and the enclave, includedFiles, the copying between two
-- connections, the layout of printed tables, flags, paths, and calls of the operating system. The
-- floating-point quotients of HumanizeDuration are exact ones here.
pub mod Base
pub mod State
pub mod Ssh
pub mod Manual
pub mod Client
pub mod Cmd
pub mod Ui
pub mod Doctor
pub mod Tests
