-- ===== src/Errors.antt =====
-- errors.go: the sentinels, the problem and its codes, the error values that the client returns, and
-- the proofs about what they match.
pub mod Sentinel
pub mod Code
pub mod Problem
pub mod Text
pub mod Chain
pub mod Decode
pub mod Matching
pub mod Table
pub mod Envelope
pub mod Result
