-- ===== src/Gpu.antt =====
-- The GPU scheduler service (src/services/gpu_scheduler): VRAM ledger, admission, failover,
-- request queue, model pools and the scheduler that joins them.
pub mod Ledger
pub mod Admission
pub mod Failover
pub mod Requests
pub mod Pool
pub mod Scheduler
