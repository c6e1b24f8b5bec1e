-- ===== src/Policy.antt =====
-- src/jev_router/policy.py: Jev's answers and the request's features become a model and an effort.
pub mod Budget
pub mod Failures
pub mod Efforts
pub mod Eligible
pub mod Answers
pub mod Match
pub mod Rules
pub mod Gate
pub mod Routes
pub mod Finalize
pub mod Evaluate
pub mod Select
