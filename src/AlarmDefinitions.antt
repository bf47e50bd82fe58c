-- ===== src/AlarmDefinitions.antt =====
-- Alarm definitions: monasca/common/repositories/mysql/alarm_definitions_repository.py and the
-- handlers of monasca/v2/reference/alarm_definitions.py that it serves.
pub mod Body
pub mod Diff
pub mod Queries
pub mod Keys
pub mod Actions
pub mod Create
pub mod Update
pub mod Events
pub mod Resource
