-- ===== src/Escalation/Repeat.antt =====
-- Policies that repeat.
