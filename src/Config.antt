-- ===== src/Config.antt =====
-- src/jev_router/config.py: the parts of a validated configuration that the routing code reads. A
-- dictionary is an association list in its order; `lookup` is `.get`.
pub mod Adaptive
pub mod Conditions
pub mod Routes
pub mod Lanes
pub mod Router
