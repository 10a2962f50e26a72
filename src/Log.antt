-- ===== src/Log.antt =====
-- The logging component: chord/log.h and chord/logger.cpp.
pub mod Level
pub mod Event
pub mod Formatter
pub mod World
pub mod Appender
pub mod Logger
pub mod Manager
pub mod Definition
pub mod Listener
pub mod ToYaml
pub mod Reload
