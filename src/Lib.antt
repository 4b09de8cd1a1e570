-- ===== src/Lib.antt =====
-- Verification of orxies, a reverse proxy with an admin UI, written in Go.
--
-- A request from the internet reaches internal/proxy, whose router finds the site that serves the
-- host, asks the site's limiter and hands the request to an upstream, and internal/metrics counts
-- it. An operator signs in to the admin UI, which asks internal/auth whether the password, the
-- second factor and the throttle let them in. What they deploy, or a push deploys through
-- internal/webhook, internal/deploy turns into a running container and a site file: it acts on the
-- tables of internal/store and on the agent of internal/agent, which alone reaches docker.
--
-- - Prelude: the names that the other modules share. A Go string is the list of its bytes (Text), a
--   map is an association list (Prelude/Maps), an int that the source lets fall below zero is an
--   integer of Prelude/Int.
-- - Proxy/Limiter: internal/proxy/ratelimit.go. Allow is `allow`, allowGlobal `allow_global`,
--   allowPerIP `allow_per_ip`, sweepLocked `sweep_locked`, Acquire `acquire`, and the closure it
--   returns is `release`. The clock is an argument; the lock makes each call one step.
-- - Auth/Throttle: internal/auth/throttle.go. Blocked, Fail and Reset are `blocked`, `fail` and
--   `reset`, and `prune` is the source's prune.
-- - Auth/Session and Auth/Csrf: internal/auth/auth.go. IssueCookie, Authenticated, IssuePending and
--   VerifyPending are `issue_cookie`, `authenticated`, `issue_pending` and `verify_pending`; the
--   tokens of forms are `ensure_csrf` and `check_csrf`.
-- - Auth/Totp: internal/auth/totp.go, with VerifyTOTP as `verify_totp`.
-- - Ui/Login: handleLogin of internal/ui/ui.go, which joins the session, the second factor, the form
--   tokens and the throttle.
-- - Config: internal/config/config.go. Validate is `validate`; Config/Files has the file names,
--   Config/Index the Store with Replace and Lookup.
-- - Security: internal/security/security.go, headers and the allowlist.
-- - Proxy/Pool, Proxy/Static, Proxy/Request: upstream.go, static.go and what router.go reads of a
--   request, all in internal/proxy. Proxy/Router: ServeHTTP of router.go, cut where it hands the
--   request on, with the runtimes of the sites in a heap that aliases share, and Reload.
-- - Store/Ports, Store/Projects, Store/Deployments and Store/Services: the files of these names in
--   internal/store, the tables of loopback ports, of projects, of deployments and of services with
--   their links.
-- - Deploy: internal/deploy. A `World` is the tables, the site files and the engine; Deploy/Sites has
--   siteFor, Deploy/Containers runImage (`run_image`) and drainOld (`drain_old`), Deploy/Actions
--   Deploy, Update, Rollback and Stop under these names, Deploy/Actions/Removal Remove, Deploy/Detect
--   DetectSource, Deploy/Health waitHealthy (`wait_healthy`), and
--   Deploy/Services, Deploy/Provisions and Deploy/Backups services.go.
-- - Agent: internal/agent. agent.go is `serve` over a `Runner`, client.go Agent/Client and docker.go
--   Agent/Docker, whose `cli_runner` is a Runner.
-- - Secmon: internal/secmon. The lines of the logs are parsed in Secmon/Authlog and Secmon/Fail2ban,
--   counted in Secmon/Counts, and classifyHijacks is `classify_hijacks` of Secmon/Hijacks; Secmon/Views
--   has the other lists, Secmon/Build `build` and the Reader.
-- - Audit: internal/audit/audit.go, the log of what admins do, with Log and Tail as `log` and `tail`.
-- - Webhook: internal/webhook/webhook.go, deploy on push.
-- - Metrics: internal/metrics/metrics.go. Site.Record is `record_sample`, Snapshot `snapshot`, and
--   the registry of sites is `Registry`.
--
-- Time is a natural number, in nanoseconds for the limiter and the throttle and in seconds for the
-- buckets of the metrics, and an argument of every operation that reads the clock. Token amounts
-- are exact where the source has a float64, in billionths of a token. Case and white space are those
-- of ASCII. Loops are structural recursion; only the printing of a time runs on rounds, 20 of them,
-- which are enough for an int64 (parse_int-print_int in Prelude/Decimal), and the wait for a container
-- on 61 rounds, one for each half second of its 30 seconds and one to see the deadline.
-- HMAC, JSON, the clean form of a path, base64, base32, bcrypt, the sealing of secrets, the programs
-- docker, nixpacks and git, and the parsers of time and of net and net/url are parameters. Not
-- modelled: the network, the file system and the external processes, the HTML of the UI and most of
-- its handlers, the git checkout, the statistics of the system, and the parts that only call a
-- library. The operations of the manager are steps of one sequence: two that run at once are not
-- modelled.
pub mod Prelude
pub mod Agent
pub mod Audit
pub mod Auth
pub mod Config
pub mod Deploy
pub mod Metrics
pub mod Proxy
pub mod Secmon
pub mod Security
pub mod Store
pub mod Ui
pub mod Webhook
