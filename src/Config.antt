-- ===== src/Config.antt =====
-- The configuration component: chord/config.h and chord/config.cpp.
pub mod Names
pub mod Yaml
pub mod Conversion
pub mod Members
pub mod Var
pub mod Setting
pub mod Registry
mod Tests
