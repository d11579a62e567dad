-- ===== src/Metric/Undo.antt =====
-- A loss that a timer inferred is undone by the late Hello (`HelloHistory::missed_many`, `record`).
