-- ===== src/Lib.antt =====
-- SilentGuard XDR: a management server (server/app, FastAPI over a SQL database) and an endpoint agent
-- (agent/silentguard_agent). The agent enrolls, sends its events in batches, and polls for its isolation
-- state, the commands that wait for it, the blocklist and its policy. Administrators sign in with
-- accounts, and their requests are checked by role and by tenant. The parts share the database; the agent
-- and the server meet at the commands, which are JSON objects.
--
-- How the code is written here. The database is the record `Db` of its tables (Server.Models), a table a
-- list of rows in the order of their insertion; a query's `first()` is the first row that its filter
-- keeps, and an assignment to a loaded row updates the rows of its key. A handler or service call is an
-- `Exec` (Server.Exec): it takes the database and gives a result or the HTTP error that the code raises,
-- with the database that is left. What a call has not committed is not in it: `_consume_token` gives the
-- change that its caller's commit writes. `atomic` is a call that commits at its end only. Times are seconds, and
-- each request reads one time, an argument. What the code draws at random (ids, keys, salts, tokens) is an
-- argument. Text that the code only compares is a native string; text that it walks through is a list of
-- code points (Prelude.Text), with the case and the blanks of ASCII. Loops are recursion on lists, but
-- for two that take fuel. The parser of Sigma conditions has four steps for each token and three more: it goes
-- through at most four functions before it takes a token. The search for a free slug has two steps more
-- than there are organizations: each organization takes one slug.
-- Numbers of Python are unbounded and not negative here.
--
-- The parts, with paths below server/app where they do not begin with agent or server:
--   Server.Models: server/app/models.py, the tables.
--   Server.Access: core/roles.py, core/permissions.py, auth.py (`current_principal`,
--     `require_permission`) and services/tenancy.py.
--   Server.Plans: core/plans.py.
--   Server.Auth: services/auth_service.py and core/security.py. RateLimit is `_rate_limited`, Password the
--     password policy and hashes, Login `authenticate`, Sessions the tokens and their rotation, OneTime
--     the verification, reset and invitation tokens.
--   Server.NetMatch: core/netmatch.py. A result of none is the ValueError of `urlsplit`.
--   Server.Intel: services/threat_intel.py, the store of indicators; Indicators their extraction.
--   Server.Auth.Signup: `_unique_slug` and `signup` of services/auth_service.py. Server.Auth.Mfa:
--     core/totp.py, the mfa_ functions of services/auth_service.py and `login` of routers/auth.py.
--   Server.Response: services/response.py and `respond` of routers/responses.py.
--   Server.Policy: services/policy.py.
--   Server.Fleet: `enroll` and `checkin` of routers/agents.py, `_set_isolation` of routers/admin.py, and
--     monitor.py.
--   Server.Fleet.Telemetry: `telemetry` and `_sync_quarantine` of routers/agents.py.
--   Server.Sigma: detection/sigma.py. Condition is `_compile_condition`, Selection `_compile_selection`.
--   Agent.Buffer: agent/silentguard_agent/telemetry.py, the event buffer and its flush, and the spool of
--     config.py. A write of the spool may fail, and a request that fails may have reached the server.
--   Agent.Update: agent/silentguard_agent/update_verifier.py and `remote_update` of response_handlers.py.
--   Agent.State: agent/silentguard_agent/tamper.py, the state file of config.py and `ensure_enrolled`.
--   Agent.Quarantine: agent/silentguard_agent/quarantine.py.
--   Agent.Commands: `handle_command` of agent/silentguard_agent/main.py, response_handlers.py and
--     isolation.py. Agent.Loop: `apply_policy` and the check-in of main.py. A handler's exception that
--     nothing before the loop of `run` catches is a Boolean beside the state that it leaves (`Handled`):
--     it ends the check-in, and what stood after it is not done. The digits of a version are ASCII.
--   Agent.ArpGuard, Agent.Sinkhole and Agent.FileDrop: arp_guard.py, dns_sinkhole.py and file_drop.py of
--     agent/silentguard_agent/monitors.
--   Server.Console: the blocklist and the quarantine of routers/admin.py, the policies of
--     routers/policies.py; Organizations is routers/orgs.py.
--   Exchange: both sides together, on what a command or an isolation comes to.
--   Server.Detection: detection/rules.py, with `dispatch_responses` of detection/engine.py; Evaluate is
--     `evaluate_event` of engine.py, and Triage routers/detections.py.
--   Server.Users: routers/users.py, and the groups of routers/policies.py.
--   Server.Objects has lemmas on JSON objects; Prelude has tests, lists, tables and texts.
--
-- Parameters of the model, as code that is not in the repository: the JWT library, PBKDF2, SHA-256, HMAC,
-- the cryptography package, the JSON printer, the YAML library, regular expressions, base32, and what
-- the operating system answers to the agent. What a theorem needs of one is a hypothesis of it.
--
-- Not modelled: messages to the dashboard and to other services, e-mail, alerts, the other
-- monitors of the agent, TLS, single sign-on, the user interfaces and the migrations. Requests run one
-- after the other; of the agent's threads, only the emits during a flush are interleaved.
pub mod Prelude
pub mod Server
pub mod Agent
pub mod Exchange
