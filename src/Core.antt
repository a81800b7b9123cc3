-- ===== src/Core.antt =====
-- The shared vocabulary of packages/core: enums.py, constants.py, errors.py, and JSON values.
pub mod Text
pub mod Enums
pub mod Errors
pub mod Json
