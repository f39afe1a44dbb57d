-- ===== src/Tests.antt =====
-- Runs of the model on small inputs, and the theorems applied to them.
mod Samples
mod Fleets
mod Builders
mod Requests
mod Servers
mod Sessions
mod Backups
mod Permissions
mod Changes
mod Processes
mod Endings
mod Rollouts
mod Exposures
mod Warnings
mod Admissions
mod Namespaces
