-- ===== src/Broadcast.antt =====
-- src/broadcast.
pub mod Router
pub mod Reservations
pub mod Progress
pub mod Dispatcher
pub mod Delivery
