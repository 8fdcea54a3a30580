-- ===== src/Lib.antt =====
-- cf-docker-tunnel-sync keeps the ingress rules and DNS records of a Cloudflare tunnel in step with
-- labelled Docker containers. This library models its decisions and the code that acts on them
-- (Python, src/tunnel_sync).
--
-- How the parts work together: a Docker event passes the filter of the scheduler and reaches the
-- debouncer, which starts one synchronization for several events. A synchronization reads the
-- containers' labels, asks Cloudflare through the client, computes a change plan without any input
-- or output, lets the executor carry it out, and publishes a status for each service.
--
-- Files, and the code that they model:
--   Base: tests, lists, dicts with text keys in insertion order, JSON values and Python's str.
--   Domain/Models: src/tunnel_sync/domain/models.py. Ownership has the laws of `parse_status`.
--   Domain/Ingress: src/tunnel_sync/domain/ingress.py, `merge_ingress`.
--   Domain/Plan, Routes, Records, Planner: src/tunnel_sync/domain/planner.py. Plan has the tables
--     and the test whether cleanup is due, Routes the loops over ingress rules, Records the loops
--     over DNS records, and Planner the summary, the plan while Docker cannot be read, and
--     `compute_change_plan`.
--   Domain/Labels: src/tunnel_sync/domain/labels.py.
--   Domain/Snapshots: src/tunnel_sync/domain/snapshots.py.
--   Domain/Hostnames: src/tunnel_sync/domain/discovery.py, `normalize_hostname`.
--   Domain/Plausibility: discovery.py, `evaluate_origin_network_plausibility`.
--   Domain/Diagnostics: src/tunnel_sync/domain/diagnostics.py and `StatusPublisher.publish` of
--     src/tunnel_sync/application/sync.py.
--   Application/Ports: src/tunnel_sync/application/ports.py, what the executor is given.
--   Application/Policy, Calls, Executor: src/tunnel_sync/application/executor.py, the deletion guard,
--     the calls to Cloudflare and `execute`.
--   Application/Activation: executor.py, `provision` and `activate`.
--   Application/Tombstones: src/tunnel_sync/application/sync.py, what `run_once` does with the
--     tombstones of its state, in one cycle and in several.
--   Application/Fetching: sync.py, `RemoteFetcher`; Lookups and Reads hold what its dicts hold.
--   Application/Discovery: src/tunnel_sync/application/discovery.py and inventory.py. Connectors finds
--     the container of cloudflared, Discovery has the parts of a service, Loop the loop over the
--     containers and `collect`.
--   Application/Reports: sync.py, what a cycle tells the reporter, the metrics and the dispatcher.
--   Application/Reporter: src/tunnel_sync/application/reporting.py; Ring has the buffers.
--   Application/Cycle: sync.py, `run_once`. Cycle has the state and the environment, Stages the parts
--     up to the plan, Planning the arguments of the planner, Finishing what follows the plan, and Run
--     the whole cycle with its handlers.
--   Application/Preview: src/tunnel_sync/application/preview.py, `cache_preview` of state.py and the
--     route `api_change_plan` of src/tunnel_sync/web/app.py.
--   Runtime/Scheduler: src/tunnel_sync/runtime/scheduler.py, the filter of events.
--   Runtime/Debounce: src/tunnel_sync/runtime/debounce.py, as steps on a state in any order.
--   Adapters/Connector: src/tunnel_sync/adapters/connector.py, the token file and the restart, over
--     the calls of `os`, `open` and the Docker client in the record `Host`.
--   Adapters/Docker: src/tunnel_sync/adapters/docker.py; Stream has `listen_events`.
--   Adapters/Notifications: src/tunnel_sync/adapters/notifications.py.
--   Adapters/Cloudflare: src/tunnel_sync/adapters/cloudflare.py and retry.py, `request`.
--   Tests: concrete inputs.
--
-- State and effects: the keyword arguments of `compute_change_plan` are one record, `PlanArgs`; each
-- loop of it is a function that returns the changes, the tombstones to set and to clear, and the
-- roots. Cloudflare, the token file and Docker are states of unknown types, changed by operations
-- that are parameters (`Writer`, `Connector`, `Client`); an exception is a value. What the code relies
-- on in the token file and the restart is the record `Laws`; the token file asks for `HostLaws`. Both
-- say only of the connector's own container what its restart does; that a failed write leaves the file
-- or a part of the text, which is no token, is an assumption on the file system.
--
-- Bounds: no function takes fuel. The retry loops count the attempts that are left, and the loop over
-- pages the pages that are left; these numbers are those of the code, not chosen for the model.
--
-- Simplifications: times are whole seconds, in the debouncer milliseconds; texts of reasons, log lines
-- and errors are constructors with the values that are formatted into them; `lower` treats ASCII,
-- while `isdigit` and `int` have the digits of Unicode 14 and the limit of 4300 digits; the types of
-- fields that pydantic checks are taken as given; the hostname of an ingress rule is a text or null.
--
-- Not modelled: the redaction of texts, settings, the other routes of the web interface, the preflight
-- checks, logging, sockets and HTTP, and the older names of the package compat.
-- Container lists whose keys have values of another type than Docker gives them raise in the code and
-- are left out, but for elements that are no dict and for port labels that `int` refuses.
pub mod Base
pub mod Domain
pub mod Application
pub mod Runtime
pub mod Adapters
mod Tests
