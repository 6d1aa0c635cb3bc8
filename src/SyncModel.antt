-- ===== src/SyncModel.antt =====
-- src/syncmodel.c and include/syncmodel.h: the sync decisions, and the records that they read.
-- The functions that are neither about versions, nor about classification, nor about the queue of
-- wanted files stand here.
pub mod Conflict
pub mod Version
pub mod Meta
pub mod Classify
pub mod Want
mod Tests
