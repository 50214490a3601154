-- ===== src/Chunking.antt =====
-- backend/app/chunking: the cutting of parsed documents into bounded chunks.
pub mod Splitting
pub mod Parts
pub mod Contracts
pub mod Units
pub mod Groups
pub mod Fitting
pub mod Grouping
pub mod Documents
pub mod Sheets
pub mod Ordering
pub mod Chunks
pub mod Lossless
pub mod Coverage
pub mod Guarantees
mod Tests
