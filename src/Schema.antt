-- ===== src/Schema.antt =====
-- The layout of the tables' rows: src/dnmd/tables.c from `compute_row_offsets_size` on.
pub mod Kinds
pub mod Keys
pub mod New
pub mod Details
pub mod Layout
pub mod Complete
mod Runs
