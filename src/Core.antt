-- ===== src/Core.antt =====
-- src/core/net: the parts of the networking core that keep state of their own.
pub mod DeadlineQueue
pub mod OutputBudget
pub mod Backpressure
pub mod Buffer
pub mod TimerQueue
