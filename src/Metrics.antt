-- ===== src/Metrics.antt =====
-- src/metrics/infrastructure: what a scrape of the metrics reads. `Lag` is kafka-lag.collector.ts,
-- `Depth` outbox-depth.collector.ts, `Requests` http-metrics.interceptor.ts; `Routes` is proved over
-- the last.
pub mod Lag
pub mod Depth
pub mod Requests
pub mod Routes
