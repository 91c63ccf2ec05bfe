-- ===== src/Lib.antt =====
-- CFTM watches Cloudflare Tunnels: a collector polls the Cloudflare API, a store keeps what it saw,
-- pure functions derive findings, events and notifications from it, and a server shows them.
--
-- The parts and their files
--   LogBuf      internal/logbuf/logbuf.go: the ring of recent log records (New, Add, Entries).
--   Config      internal/config/config.go: Load and the readers of the environment.
--   Model       internal/store/models.go and the times of internal/store/store.go.
--   Severity, Finding, Health
--               internal/collector/health.go: Severity, Finding, WorstSeverity, Evaluate.
--   Probe       internal/prober/classify.go: Classify, ClassifyError, IsHealthy, IsFailure.
--   Prober      internal/prober/prober.go: the hostnames and targets of a round.
--   Event       internal/collector/events_meta.go, and tunnelEvents and connectorEvents of
--               internal/collector/collector.go.
--   Notify      internal/notify and the table of internal/store/notifications.go.
--   Store       internal/store: the tables as lists of rows in the order of insertion, one function for
--               each transaction or query. Tunnels, History, Connectors, Ingress, Log, Inventory and
--               Listing stand for queries.go, Uptime for uptime.go, Samples for probes.go and the
--               readers of the logs, Origins for origins.go, Ignores for ignores.go and Logins for
--               logins.go; Tables holds the tables together.
--   Collector   internal/collector/collector.go: poll, syncTunnel, syncConfiguration, PollOnce. Below
--               it Probes (probes.go: the token and the round), Origins (origins.go: the request
--               origins), Logins (logins.go: the round) and Capabilities (capabilities.go).
--   Client      internal/cloudflare/client.go: the budget guard (Rate), the parsers of the quota
--               headers (Headers), send (Send) and listAll (Pages); ZoneFor of zones.go and
--               ClampWindow of analytics.go (Zones), the errors of graphql.go (GraphQl), and the Access
--               applications and policies of access.go (Access).
--   Server      internal/server/viewbuilder.go and handlers.go: heartbeats, the probe summary, muted
--               findings, the throttle, the snapshot (Page), the dashboard and the page of a tunnel
--               (Cards), the request origins (Origins), the audit page (AuditPage), the features and
--               permissions (About) and the quality card of quality.go (Quality).
--   Web         internal/web/viewmodels.go and helpers.go: labels, formats, links and tone classes.
--   Audit       internal/cloudflare/alerting.go, internal/collector/audit.go (the alerts, and in Access
--               the coverage of ingress hostnames) and internal/collector/logins.go (the summary).
--   Base        the shared helpers: numbers, lists, orders, sums, and the text functions of Go's
--               library.
--
-- How they interact: a cycle (Collector.Poll.poll) saves the snapshot of the API (Store.Tunnels),
-- replaces connectors, connections and ingress rules, turns the differences into events (Event), writes
-- them and hands them to the dispatcher (Notify), which consults its outbox. The pages evaluate
-- findings (Health) on what the store holds.
--
-- Conventions. State is passed explicitly; a transaction is a function of the tables, with `none` or a
-- flag of the environment for the statement that fails, after which the tables are as before. What the
-- API, the database and the transport answer is a parameter (Collector.Api.World, Notify.Answers).
-- Times are natural numbers of nanoseconds from the Unix epoch, with 0 for Go's zero time, and the
-- database keeps whole seconds. Case mapping is that of ASCII. ORDER BY is a stable insertion sort, so
-- equal keys stay in the order of insertion; columns that hold JSON are kept decoded. The environment
-- and time.ParseDuration are parameters of Config, http.ParseTime is one of Client.Headers. Loops are
-- structural recursion, so no function runs on fuel except the decimal digits of a number (Base.Text.show_nat), where n + 1 steps
-- are enough because n < 10 ^ (n + 1).
--
-- Not modelled: HTTP, SQL and its query planner, JSON, goroutines and timers; the generated templates
-- (internal/web, files _templ.go), the drawing of charts and the table of country names. Each
-- operation under a mutex is one step.
pub mod Audit
pub mod Base
pub mod Client
pub mod Collector
pub mod Config
pub mod Event
pub mod Finding
pub mod Health
pub mod LogBuf
pub mod Model
pub mod Notify
pub mod Probe
pub mod Prober
pub mod Server
pub mod Severity
pub mod Store
pub mod Web
