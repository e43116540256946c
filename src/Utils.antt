-- ===== src/Utils.antt =====
-- internal/pkg/utils.
pub mod SyncMap
