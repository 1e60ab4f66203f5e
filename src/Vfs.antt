-- ===== src/Vfs.antt =====
-- kernel/vfs.c: paths and nodes.
pub mod Canonical
pub mod Mounts
pub mod Nodes
