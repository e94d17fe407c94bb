-- ===== src/Governance.antt =====
-- The governed AWS change: its plan, its approval, its execution.
pub mod Types
pub mod Plan
pub mod Backend
pub mod Approval
pub mod Decide
pub mod Queue
pub mod Ready
pub mod Claims
pub mod MakerChecker
pub mod Simulate
pub mod Transitions
pub mod Forgets
mod Tests
