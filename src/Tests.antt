-- ===== src/Tests.antt =====
-- The theorems at concrete inputs.
mod Data
mod Requests
mod Pages
mod Notifications
mod SubAlarms
mod Definitions
mod Alarms
mod Events
mod Resource
mod Deletions
mod Influx
mod Handlers
mod Connections
mod Kafka
