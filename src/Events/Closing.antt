-- ===== src/Events/Closing.antt =====
-- The stream and the end of an action.
