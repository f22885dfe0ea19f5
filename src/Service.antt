-- ===== src/Service.antt =====
-- The parts of src/service/apfs_mount_service.cpp.
pub mod Partition
pub mod Drive
pub mod Json
pub mod Config
pub mod Control
pub mod Target
pub mod Discovery
pub mod Supervisor
pub mod Scan
pub mod Scm
pub mod Main
pub mod Client
pub mod Window
mod Tests
