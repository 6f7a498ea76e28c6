-- ===== src/Physical.antt =====
-- query/physicalplan: what the operators of a plan may rely on, and what they do with a record.
pub mod Bitmaps
pub mod Predicates
pub mod Evaluate
pub mod Ranges
pub mod Cells
pub mod Rows
pub mod Kept
pub mod Filtered
pub mod Indices
pub mod Left
pub mod Supported
pub mod Ordering
pub mod Listed
mod Tests
