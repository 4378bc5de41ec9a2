-- ===== src/Lib.antt =====
-- Gantry Core: replicated operations and the peers that carry them, accounts and authority, contracts
-- of operations with the command line that calls them, clusters of nodes, agent runs, and propagation
-- of configuration, with what makes them correct.
--
-- The program is a library of Go packages. Products declare their operations as contracts
-- (operation/), which a client (client/) and the command line (cli/, automation/) call over an API
-- with common errors and redaction (protocol/). They commit operations to a log that raft
-- replicates between authenticated peers (replication/), keep accounts and roles and authorize
-- their callers (auth/), pair nodes into a cluster whose requests are signed (cluster/), run agents
-- whose end several readers observe (agent/) and terminals (terminal/), and carry configuration to
-- other nodes (propagation/). A product authorizes a caller first, then routes a mutation by the
-- readiness of its node; a leader proposes it past the schema gate, and every node applies the
-- committed log to its machine.
--
-- Files and the code they model:
--   Replication/Operation   replication/operation.go: Operation, Encode, DecodeOperation, Digest
--   Replication/Fsm         replication/kvfsm.go: KVFSM with Apply, applyLocked and the mutations
--   Replication/Snapshot    replication/snapshot.go: Snapshot, Persist, Restore
--   Replication/Node        replication/node.go: the node and its gate with Propose; the whole of
--                           NewNode in Started, WaitApplied in Wait, the exchange of snapshots and
--                           the calls of raft in Export. The machine is KVFSM, or another one, of
--                           which the model has what a node asks of it
--   Replication/Authority   replication/authority.go, readiness.go: Route and the readiness driver
--   Replication/Peers       replication/auth.go: MemoryPeerAuthenticator with its handshakes and
--                           nonces, buildHandshake, VerifyHandshakeSignature, MemoryMembership
--   Auth/Accounts           auth/accounts.go: ValidateAccounts
--   Auth/Capabilities       auth/accounts.go: EffectiveCapabilities, HasCapability, DedupeStrings
--   Auth/Edits, Auth/Model  auth/model.go: the loops of the operations, and the operations, those on
--                           identities in Auth/Model/Identities
--   Auth/Queries            auth/model.go: logins and the other questions
--   Auth/Execution          auth/execution.go: Actor, Execution, Authorize
--   Auth/Sessions           auth/sessions.go: SessionStore, with withDefaults, NewSessionStore and
--                           Login in Started, ListSessions and RevokeSession in Views
--   Auth/Policy             auth/policy.go: ValidateProviderGrants
--   Auth/Passwords          auth/accounts.go: PBKDF2SHA256, HashPassword, VerifyPassword
--   Auth/Enrolled           from CreateAccount to the first AuthenticatePassword
--   Contracts               operation/operation.go: Contract, Validate, the Registry
--   Protocol                protocol/protocol.go: errors, exit codes, pages, keys; Redact in
--                           Protocol/Redact, DecodeStrict and Render in Protocol/Wire
--   Client                  client/client.go: Call and callOnce; endpoint in Client/Address, and
--                           LocalExecutor in Client/Local
--   Command                 cli/cli.go: Parse and ParseExitCode
--   Automation              automation/automation.go: routeURL in Address, the files in Files,
--                           redactOutput and findCSRF in Output, Run in Run
--   Cluster/Identity        cluster/model.go: Identity, Member, endpoints, health, capabilities
--   Cluster/Pairing         cluster/pairing.go: invitations, submissions, ValidateTransition
--   Cluster/Security        cluster/security.go: Sign, the envelope in headers, VerifyIncoming
--   Cluster/Routing         cluster/routing.go: ParseTarget, FanOut
--   Agent/RunState          agent/agent.go: RunState and its recorders
--   Agent/Outcome           agent/agent.go: Classify
--   Agent/Recovered         agent/agent.go: ReconcileRecovered, SanitizeBillingURL, RunArgs
--   Terminal                terminal/terminal.go: Normalize, AppendScrollback, CheckCapacity
--   Propagation/Plan        propagation/model.go, plan.go: Envelope.Validate, Diff, resolveConflict;
--                           Sign and Verify in Propagation/Plan/Signed
--   Propagation/Preview     propagation/preview.go: DryRun
--   Propagation/Apply       propagation/runtime.go: PreviewLocal, ApplyLocal
--   Propagation/Target      propagation/target.go: Select
--   Propagation/Schedule    propagation/schedule.go, reconcile.go: Due, InMaintenanceWindow,
--                           DecideReconcile
--   Propagation/Reconcile   propagation/reconcile.go, conflict.go, secrets.go: Profile.Validate,
--                           DetectDrift, ValidateOwnership, CheckSecrets
--   Propagation/Distributed propagation/distributed.go: PreviewNodes, ApplyNodes
--   Propagation/Execute     propagation/profile_execute.go: ExecuteProfile
--   Propagation/Transaction propagation/transaction.go: Execute
--   Propagation/Manager     propagation/manager.go, runner.go, ui.go: the profiles and the history of
--                           a node, RunDueProfiles, PresentResult
-- A child module holds what is proved of its parent's definitions, named for what it is about. The
-- modules called Tests hold runs and the theorems at concrete inputs. Base holds what they share:
-- results of calls with an error, Go's maps, sorts and trimming, matching of anchored patterns, an
-- interface of the cryptography, and signed integers.
--
-- How the code is modelled. A method that changes its receiver takes the state and returns it. A
-- call with an error returns a Result, and `Holds` says what is true of a call that succeeds. A map
-- is an association list, a map to true the list of its keys, and a map's random order is only met
-- where the code sorts afterwards, where it takes the first match of an id that is shown
-- (Auth.Sessions.Views), or in Client.Address, where the values of a path stand apart. A lock makes
-- an operation one step, so interleavings are sequences of steps: Auth.Model.Administered,
-- Agent.RunState.Later, the events between two handshakes in Replication.Peers.Replay, and the
-- goroutines of a fan-out in Cluster.Routing. In Propagation.Distributed the order in which
-- goroutines apply is a parameter. Counters wrap at their width: int64 revisions in
-- Replication.Fsm, uint64 sequences in Agent.RunState. Times are numbers of nanoseconds. Loops are
-- by recursion on the lists, texts or counts they range over. A wait is a list of its rounds
-- (Replication.Node.Wait). Only the loop over the blocks of PBKDF2 has fuel, one block for each
-- byte that is asked for; Auth.Passwords.Derived proves that this is enough.
--
-- Parameters. encoding/json and SHA-256 stand behind a codec (Replication) and a digest of payloads
-- (Propagation); HMAC and the texts of digests are the record Crypto of Base, which the signatures
-- of peers and of clusters share; random bytes are arguments. raft's configuration, state and apply
-- futures are arguments of Replication.Node, and its start over the stores the record Consensus;
-- the lower case of a name, stored password hashes with their test, fresh ids and the clock are
-- arguments in Auth, and the parsers of package time in Propagation. The parsers of addresses and
-- of JSON, the files and the server, as a function of the request and in Client of its state too,
-- are arguments in Command, Automation and Client. The account persistence, the propagation
-- adapter, the store of profiles, and the executors of profiles and transactions are records of
-- operations, and `IsDurable`, `IsReversible`, `IsStore` and `IsPersistent` say what is relied on:
-- a save that is reported as failed changed nothing, an adapter or a store touches the object it is
-- given, and stores that were bootstrapped say so from then on.
--
-- Not modelled: sockets, TLS and processes, which are input and output, with the frames and the
-- table of connections of raft's transport; the durable store of raft, the in-process fabric and
-- the cluster built on it; audit records and the catalogue of the launcher; editors, workspaces and
-- conversations; tables of constants.
pub mod Base
pub mod Replication
pub mod Auth
pub mod Contracts
pub mod Protocol
pub mod Command
pub mod Automation
pub mod Cluster
pub mod Agent
pub mod Propagation
pub mod Terminal
pub mod Client
