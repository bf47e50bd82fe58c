-- ===== src/Influx.antt =====
-- The metrics repository, monasca/common/repositories/influxdb/metrics_repository.py.
pub mod Bytes
pub mod Quoting
pub mod Words
pub mod Series
pub mod Queries
pub mod Metrics
pub mod Measurements
pub mod History
