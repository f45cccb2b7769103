-- ===== src/Metrics/Examples.antt =====
-- A collector with two samples.
