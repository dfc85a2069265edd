-- ===== src/UndoLog.antt =====
-- The undo log that both containers keep (saengra-server/include/edges_container.h and
-- saengra-server/include/vertices_container.h): its entries, the net changes that
-- `iter_just_changed` computes, and an abstract view of a transactional set with three layers.
pub mod Change
pub mod Net
pub mod Layers
mod Examples
