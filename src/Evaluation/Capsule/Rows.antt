-- ===== src/Evaluation/Capsule/Rows.antt =====
-- evaluation/parquet.py: the rows of a capsule, in order. A row is a record of its columns, which
-- `none` leaves null; the columns of one record kind stand together.
pub mod Columns
pub mod Records
pub mod Metrics
pub mod Stream
pub mod Order
pub mod Batches
