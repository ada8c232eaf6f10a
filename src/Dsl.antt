-- ===== src/Dsl.antt =====
-- The review DSL (internal/dsl): its schema, inheritance from `rule_base`, and validation.
pub mod Schema
pub mod Merge
pub mod Inherit
pub mod Validate
pub mod Parse
