-- ===== src/Index.antt =====
-- src/index.cpp: the ordered index from keys to positions, and its iterator.
pub mod KeyOrder
pub mod CompareKeys
pub mod BTree
pub mod BPlusTree
