-- ===== src/Container/Durable.antt =====
-- container/durable_startup.go: startup commands that are kept as shell scripts in the container.
pub mod Script
pub mod Layout
pub mod Words
mod Tests
