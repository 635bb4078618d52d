-- ===== src/Tests.antt =====
-- Runs of the model on concrete inputs, and the theorems at such inputs.
mod Books
mod Orders
mod Connections
mod Migrations
mod Messages
mod Currencies
mod Instruments
mod Rows
mod Clients
mod Reports
mod Sessions
mod Launches
mod Runs
mod Reconnects
mod Tables
mod Startups
mod Subscriptions
mod Registries
mod Displays
