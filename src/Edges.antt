-- ===== src/Edges.antt =====
-- The edges container of saengra-server/src/edges_container.cpp, from its leaves to the container.
pub mod Leaf
pub mod Branch
pub mod Trunk
pub mod Container
mod Examples
