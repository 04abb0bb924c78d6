-- ===== src/Queue/Tests.antt =====
-- Runs of lib/ftm_queue.c.
