-- ===== src/Worker.antt =====
-- The worker that executes queued AWS changes (apps/worker/src/index.ts).
pub mod Text
pub mod Job
pub mod Gates
pub mod Record
pub mod Tagging
pub mod Process
pub mod Attempts
pub mod Deliveries
pub mod Outcomes
pub mod Safety
mod Tests
