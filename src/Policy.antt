-- ===== src/Policy.antt =====
-- shared/orw_common/policy_evaluator.py: the conditions of policies.
pub mod Values
pub mod Evaluator
pub mod Conditions
pub mod Negations
pub mod Agreement
mod Tests
