-- ===== src/Gpu/Ledger/Accounting.antt =====
-- The ledger's books (vram_ledger.py, RI-8): what a device has allocated, and its tokens.
pub mod Held
pub mod Invariant
pub mod Grants
pub mod Steps
