-- ===== src/Tests.antt =====
-- Runs of the model at concrete inputs, and the theorems applied there.
mod Samples
mod Text
mod Alerts
mod Queue
mod Agents
mod Claims
mod Http
mod Runs
mod Batches
mod Programs
mod Notified
mod Listing
mod Routing
