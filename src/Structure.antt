-- ===== src/Structure.antt =====
-- src/structure: the succinct data structures that a layer is made of.
pub mod Util
pub mod Word
pub mod VByte
pub mod Framed
pub mod LogArray
pub mod BitArray
pub mod BitIndex
pub mod Select
pub mod Monotonic
pub mod EntryStream
pub mod AdjacencyList
pub mod Sorted
pub mod WaveletTree
