-- ===== src/Observability/Traces/Accept.antt =====
-- Which batches of spans are accepted.
