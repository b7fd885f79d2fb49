-- ===== src/Lib.antt =====
-- Verification of access-gateway: labels and selectors, role grants, approval levels, the life of an
-- access request and its session, the delivery of the outbox, the Redis proxy and the realtime hub.
--
-- The program grants people temporary access to assets. A request collects approvals, level by
-- level; the last approval creates a session, which a worker provisions at a gateway and which is
-- revoked when it ends. Who may approve, own or administer is decided by roles, and roles are bound
-- to users by selectors over labels. The parts meet as follows: the grants (Iam) run selectors
-- (Label) over the labels of users and roles, and a decision (Access) asks the approval levels
-- (Approval) whether a request is complete. What is to be done at a gateway is put into an outbox,
-- which workers deliver (Delivery); a running session of a Redis asset goes through a proxy (Proxy).
-- Open browsers hear of changes through a hub (Realtime), which stands beside the other parts.
--
-- Prelude: Boolean tests on the native numbers, lists, texts as lists of bytes, and results.
--
-- Label, for internal/label:
--   Keys, label.go: ValidateKey, ValidateValue and their helpers, Labels and the reserved prefixes. A
--   map is an association list, of which the first entry of a key counts.
--   Selectors, selector.go: Requirement, Selector, their Matches, String and Validate. An error text
--   is a constructor.
--   Parser, selector.go: Parse. The position in the input is the rest of the input. The loop over a
--   set of values runs on fuel, one more than the length of what is left, since each round takes a
--   byte; the loop over the requirements counts down from MaxRequirements, as the code does.
--   Bindings, binding.go: BindingSelector, MatchesBinding and ValidateEditable. strings.TrimSpace is
--   an automaton over the UTF-8 bytes of the spaces.
--   KeyGrammar, Matching, RoundTrip, Reading, Safety and Fuel hold the proofs.
--
-- Iam, for internal/iam and internal/authz/catalog.go:
--   Permissions and Roles: the catalog, Role.Validate and Binding.Validate.
--   Resolver: NewResolver, visit, Resolve, Explain and MatchesRole. The map from names to indices is
--   an association list with the latest entry first, and the callback of visit is run over the list
--   of the calls that visit makes.
--   Table, Calls, Grounds, Agreement and Selection hold the proofs.
--
-- Approval, for internal/approvalflow/model.go and nextApprovalLevel of internal/service/access.go:
--   Model: workflows, snapshots, approvals and their validation.
--   Levels: nextApprovalLevel; a Go map is its keys, in the order of one iteration, and its values.
--   Counting and Pending hold the proofs.
--
-- Access, for internal/service/access.go and internal/repository:
--   Model: the rows of one request and its only session, with the logs about them, and
--   CreateIfNoActive of the outbox.
--   Rows and Queue: the conditional UPDATEs of a session row and of an outbox row, each a function on
--   the row.
--   Sessions, Revokes and Requests: the transactions of CloseSession, ForceCloseSession,
--   RevokeSession (one before and one after the call of the gateway), persistRevokeFailure,
--   markRevokeManualIntervention, enqueueSessionRevocations, ReapExpired, failProvision,
--   failProvisionRevokeFailed and CancelAccessRequest.
--   Provision: the transaction of ProvisionSession after the gateway has created the session. Its claim on
--   a gateway and its heartbeat are steps of one UPDATE, and its failures are those of Revokes.
--   Decisions: DecideApproval. What the transaction reads outside of the rows of the request, such
--   as the check of the voter, is the argument Environment.
--   Steps and Runs: the transactions as a step relation, and runs of them in any order.
--   Life, Moves, Commands, Ledger, Booking, Outcomes, Revocation, Cancellation, Expiry, Locked, Provisioned,
--   Guards, Landing,
--   Verdicts, Override and Withdrawal hold the proofs.
--   A transaction is a function from the store to an error, in which case nothing is changed, or to
--   the store it commits; a failing database is not modelled, and neither are the in-app
--   notifications, the one-time tokens and the log. Times are numbers that the caller passes.
--   Transactions run one after the other, also that of markRevokeManualIntervention, which reads the
--   session without a lock.
--
-- Delivery, for ProcessOutbox of internal/service/access.go:
--   Dispatch: the phases of a call of RevokeSession, with a transaction or an answer of the gateway
--   each, and what follows a failed delivery.
--   World: any number of workers that claim, deliver, acknowledge and repeat, beside the transactions
--   of Access. The deliveries of other events are steps that change no row. There is no fuel: a run
--   is a list of steps.
--   Updates, Soundness, Transactions, Endings, Calls, Phases, Worker, Retries and Deliveries
--   hold the proofs.
--
-- Proxy, for internal/sessionproxy/redis.go and recorder.go:
--   Bytes: the readers of bufio and io, Atoi, and the case of ASCII letters.
--   Framing: respRead, respFrame and respArgs; the depth is counted down from 33 levels.
--   Screening: the tests of serveRedis on a command and on the account of a login.
--   Serving: the loop of serveRedis. The two peers are the bytes that they send, the audit sink is a
--   parameter that may refuse an event, and the trace keeps what was recorded, forwarded and answered.
--   The fuel of the loop is one more than the bytes of the client, and every round takes some.
--   Readings: what a trace says of the account, the transaction and the queue.
--   Frames, Admission, Settling, Exchange, Guarded, Operations, Audited and Rounds hold the proofs.
--
-- Realtime, for internal/realtime/hub.go:
--   Hub: Subscribe, the function it returns, Publish and setAvailable. A subscription is named by the
--   number of its allocation, a channel keeps its buffer, and a panic of Go is a state of the channel.
--   Each operation holds the mutex throughout and a receive is one step of its channel, so that any
--   interleaving is a list of operations. There is no fuel.
--   Channels, Streams, Limits and Arrivals hold the proofs.
--
-- Examples: concrete inputs at which the theorems apply.
--
-- Not modelled: the HTTP API, the gateway agent, the other proxies and the terminals, cryptography,
-- the clients of remote services, the database listener that feeds the hub and the web front end,
-- which are input and output or stand on libraries; of the lifecycle, the creation of requests, the
-- reapers of approvals and of provisioning, which touch no session row, and of ProvisionSession the
-- preparation of the call of the gateway.
pub mod Prelude
pub mod Label
pub mod Iam
pub mod Approval
pub mod Access
pub mod Delivery
pub mod Proxy
pub mod Realtime
pub mod Examples
