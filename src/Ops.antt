-- ===== src/Ops.antt =====
-- The calls of the VFS: module/dir_ops.c, module/file_ops.c and module/inode_ops.c.
pub mod Dir
pub mod File
pub mod Inode
pub mod Lookup
