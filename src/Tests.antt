-- ===== src/Tests.antt =====
-- Examples of the definitions and theorems at concrete inputs.
mod Data
mod Planning
mod Merging
mod Executing
mod Activating
mod Observing
mod Requesting
mod Waiting
mod Discovering
mod Alerting
mod Cycling
mod Docking
mod Naming
mod Selecting
mod Fetching
mod Reporting
