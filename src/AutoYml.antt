-- ===== src/AutoYml.antt =====
-- smart/auto/parser/auto_yml.py: how the nodes of a configuration are rewritten by its syntax.
pub mod Extend
pub mod Sibling
pub mod Flatten
pub mod Join
pub mod TaskTree
pub mod Import
mod Samples
