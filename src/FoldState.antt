-- ===== src/FoldState.antt =====
-- src/foldstate.c and include/foldstate.h: the per-folder index that the workers share. Modelled
-- here are the download claims.
pub mod Claims
pub mod Record
mod Tests
pub mod Table
pub mod Upsert
pub mod Forget
pub mod Access
