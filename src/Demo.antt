-- ===== src/Demo.antt =====
-- The package demo.
pub mod Workload
pub mod Writer
pub mod Native
pub mod EndToEnd
pub mod Consumer
pub mod Runner
pub mod Config
