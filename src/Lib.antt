-- ===== src/Lib.antt =====
-- The data structures of terminus-store, in which triples are laid out as bits and bytes, and its labels.
--
-- A layer of the store is a set of files in src/structure formats. Structure/ has a module for each:
--   * Structure/VByte (src/structure/vbyte.rs): `encode_slice`, `encode_vec` and `decode` of a u64 in
--     groups of seven bits. A buffer is the list of its bytes; `encode_slice` returns the buffer it
--     leaves with its result. The loop of `encode_unchecked` ends since its number shrinks, by recursion
--     on that order.
--   * Structure/LogArray (src/structure/logarray.rs): `LogArray`, with `parse`, `entry` and `slice`,
--     and `LogArrayFileBuilder`, with `push`, `push_vec`, `push_all` and `finalize`.
--   * Structure/BitArray (src/structure/bitarray.rs): `BitArray`, with `from_bits` and `get`,
--     `BitArrayFileBuilder`, and `BitArrayBlockDecoder`, which reads a file word by word behind
--     a `FramedRead`. The stream asks once for each byte and once more, more than it needs.
--     Structure/BitArray/Bits has `BitIter` (src/structure/bititer.rs) and the stream of bits,
--     Structure/BitArray/Iter the iterator.
--   * Structure/BitIndex (src/structure/bitindex.rs): `build_bitindex` counts the ones of a bit array
--     into two log arrays, and `BitIndex` answers `rank1` and `rank0` from the three. Its child Maps has
--     `from_maps` and the iterator.
--     Structure/Select has `select1`, `select0` and their ranged forms. The two differ in the ranks that
--     they read and the bit that counts, and share the loops: a round of fuel for each superblock, 52
--     for the blocks of one, and 64 for the bits of a word, which is enough since each pass shrinks the
--     range.
--   * Structure/EntryStream (src/structure/logarray.rs): `LogArrayDecoder` and
--     `logarray_stream_entries`, with a call for each value and one for the end.
--   * Structure/Framed: what both decoders rely on of `FramedRead` (crate `tokio-util`), which is a
--     parameter, and the list of all that a stream yields, values and errors. A stream asks at most as
--     often as its fuel says, and yields a panic where that is not enough.
--   * Structure/Monotonic (src/structure/logarray.rs): `MonotonicLogArray`, with the check of
--     `from_logarray`, `nearest_index_of` and `index_of`. The search has a round of fuel for each entry
--     and one more, which is enough since each pass shrinks the range.
--   * Structure/AdjacencyList (src/structure/adjacencylist.rs): `AdjacencyList`, its iterator, the stream
--     of the pairs of two files and, in Structure/AdjacencyList/Builder, `AdjacencyListBuilder`. They
--     stand on the log arrays, the bit arrays and the selects. `next` has a round of fuel for each
--     position that is left and one more, which is enough since each pass moves to the next position.
--   * Structure/Util (src/structure/util.rs): `find_common_prefix` and what is written around data.
--   * Structure/Sorted (src/structure/util.rs, src/structure/pfc.rs): `SortedIterator`, which merges
--     iterators, and the function by which `merge_dictionaries` picks one; what it compares is a
--     parameter. An iterator is the list of what it has left.
--   * Structure/WaveletTree (src/structure/wavelettree.rs): `FragmentBuilder`, the fragments of a wavelet
--     tree and `build_wavelet_tree_from_iter`, which leaves a bit array and its index.
--   * Structure/Word: shifts, `leading_zeros`, `to_be_bytes` and the reading of big-endian integers.
--
-- A database is known by a label, which names its newest layer:
--   * Storage/Label (src/storage/label.rs, src/storage/memory.rs): `Label` and `MemoryLabelStore`. The
--     hash map is the function that looks a name up. A call holds the lock on the map throughout, so
--     that calls by several callers are a sequence of steps.
--
-- How the code is read. A struct is a record and a method a function of it; a builder's method
-- returns the builder it leaves. A file being written is the list of the bytes so far: every write
-- to the sink and every read of a file succeeds, and asynchronous calls run in the order of the
-- code. A call comes to `ok`, an `io::Error` or `panic` (Prelude/Outcome); assertions, `unwrap` on
-- nothing, an index out of range and overflow panic, the latter as with debug assertions; memory
-- does not run out. u8 to u64 are natural numbers below the power of two that the theorems state or
-- that the code establishes; usize has 64 bits. A slice of shared bytes (crate `bytes`) is a list.
-- The crate `byteorder` is a parameter: the record `ByteOrder`, whose laws say that a read takes
-- the big-endian value of the bytes at the front and a write replaces them; Structure/Word/Sample
-- has an instance. `FramedRead` is the parameter of that name in Structure/Framed: a function that
-- answers each request for an item, with the law that the answer is one the crate documents for
-- some way to read the file in parts: an item that `decode` returned from the bytes so far, the end
-- where `decode` leaves no bytes of the whole file, an error where it leaves some.
-- Structure/Framed/Sample has an instance that reads byte by byte. The chunks that the crate
-- `futures` makes of the stream of blocks are an argument of `build_bitindex`.
--
-- Not modelled: the polling of streams and futures, and `write_async`; formatting of errors; the
-- dictionaries, the queries of a wavelet tree, layers, the files of a store and the store itself; the
-- order in which a store lists its labels.
pub mod Prelude
pub mod Storage
pub mod Structure
