-- ===== src/Tests.antt =====
-- Runs of the model on concrete data, and the theorems applied to such data.
mod Fixtures
mod World
mod Keying
mod Writing
mod Reading
mod Listing
mod Batches
mod Segments
mod Entries
mod Rows
mod Client
mod Store
mod Stored
mod Pages
mod Exact
mod Gone
mod Filling
mod Updating
mod Transacting
mod Returned
mod Histories
mod Fresh
mod Locking
mod Cancelling
mod Indexing
