-- ===== src/Lib.antt =====
-- ssh-mcp-pro: a server that gives a language model SSH access to hosts, under a policy.
--
-- The parts and their files. Each function keeps the source's name, in snake case.
--   Policy        src/policy.ts and src/safety.ts. Paths holds the path functions, Ports the port
--                 ranges, Safety the table of dangerous commands, Engine the types, Checks the
--                 constructor and `evaluate`, Entry `assertAllowed`, `check` and `explain`.
--                 Conditions states the permissions without the order of the checks.
--   RateLimiter   src/rate-limiter.ts, the sliding window log of each key.
--                 Refinement has a limiter that forgets nothing.
--   HttpSessions  src/http-session-registry.ts, the sessions of the HTTP transport.
--   Session       src/session.ts and src/session-auth.ts: the session manager, its admission of
--                 connections (Admission) and its verification of host keys (HostKeys).
--   Remote        src/remote: the shared types (Types, src/remote/types.ts), the nonce windows
--                 (Nonces, src/remote/http-util.ts), the policy update guard (PolicyGuard,
--                 src/remote/policy-update-guard.ts and `applyAgentPolicyUpdate` of
--                 src/remote/agent-cli.ts), and the connections of agents
--                 (Connections, src/remote/agent-connection-lifecycle.ts).
--   Shell         src/shell.ts, the command lines that are sent to a host. Words reads them as a shell
--                 does.
--   Base, Table   shared types and lemmas; Table is JavaScript's `Map` in order of insertion.
--
-- Inside Remote, Store has the tables of src/remote/store.ts, AgentHandler the messages of agents
-- (src/remote/agent-handler.ts), Scopes src/remote/scopes.ts, and ControlPlane the requests of
-- principals (src/remote/control-plane.ts). OAuth has the registration of clients and the exchange
-- of codes (src/remote/oauth-handler.ts) on the same store, and OAuth.Once what can happen to it.
-- AgentHandler and ControlPlane share one state, `Plane`, which holds the store and the connection
-- lifecycle; ControlPlane.Events lists what can happen to it, and `run` handles one event after the
-- other, as the event loop does. The endpoints that await a request's body after they have read the
-- agent write a record that may be stale by then: the event `patches_policy` has any such record, and
-- ControlPlane.Stale shows what it can undo.
--
-- How they interact: a tool asks the policy engine first, then the session manager for a session;
-- the HTTP server asks the limiter and the registry before it serves a request; the control plane
-- sends signed policy updates to an agent, which the guard admits.
--
-- State and time. A mutable object is a record, an operation a function from the old record to the
-- new one and its result. Each reading of the clock is an argument of its own, in milliseconds. An
-- asynchronous operation is split where it waits, and Session.Admission has the interleavings as a
-- step relation. Numbers are natural numbers: the sums and differences of the source stay below
-- 2 ^ 53, and a difference that may be negative is written as a comparison of sums.
--
-- Fuel. `resolve_from` has one unit for each code unit of the path and one more, which is enough
-- where a parent is the path itself or shorter.
--
-- Parameters. Node's `path` and `fs`, compiled regular expressions, hashing and `Date.parse` are
-- parameters (`NodePath`, the two `Platform` records, `parse_date`), and so are the signatures of
-- agents (`Verifier`) and what the OAuth handler looks up (`Outside`). Random identifiers and
-- tokens are arguments.
--
-- Not modelled: the SSH handshake and transfers, the HTTP and WebSocket transports, cryptography,
-- the web dashboard but for the removal of a device, the users and pages of OAuth, logging, and
-- the wording of messages.
pub mod Base
pub mod Table
pub mod Remote
pub mod RateLimiter
pub mod HttpSessions
pub mod Session
pub mod Shell
pub mod Policy
