-- ===== src/Offline/Run.antt =====
-- The offline feed from the opening of its input to its result.
