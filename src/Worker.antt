-- ===== src/Worker.antt =====
-- The pure parts of src/worker/apfs_winfs_worker.cpp.
pub mod Base32
pub mod Ea
pub mod ApfsPath
pub mod Volume
pub mod Call
pub mod Core
pub mod Mount
pub mod FileInfo
pub mod Commit
pub mod Handle
pub mod Mutate
pub mod EaWire
pub mod EaCalls
pub mod Listing
pub mod Reparse
pub mod Links
pub mod FileSystem
pub mod Callbacks
pub mod Process
pub mod Example
