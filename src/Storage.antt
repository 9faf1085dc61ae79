-- ===== src/Storage.antt =====
-- The in-memory storage, module/storage.c and module/storage.h. The children of this module model
-- its state and operations; the proofs stand in the children of the operation that they are about.
pub mod State
pub mod Tree
pub mod Path
pub mod Search
pub mod Create
pub mod Remove
pub mod Contents
pub mod Cleanup
pub mod Sound
pub mod Spec
