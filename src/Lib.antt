-- ===== src/Lib.antt =====
-- Predecessor search structures of the fusion tree benchmark (include/).
--
-- Every structure of the study is built from sorted 64-bit keys and answers predecessor(q), the
-- largest stored key strictly less than q. Spec.antt says what that means (IsPredecessor), counts the
-- keys below q (rank) and describes the position that divides the keys at q (Splits).
--
-- - Prelude: Boolean tests, arrays as lists, runs that may fault (a read outside an array) or use up
--   the model's fuel, and the loop `while (j < n && p(j)) ++j`.
-- - Word: 64-bit words as natural numbers below 2 ^ 64 with their wrap-around, the native bit
--   operations digit by digit (Digits), masks of test results (Masks), and the signed reading of a
--   word with the flipped top bit that AVX2's signed comparison asks for (Signed), words cut into
--   fields (Fields) and the comparison of a number with every field at once (Compare), or with the first
--   fields (CompareFirst).
-- - Bits: include/bits.hpp and mask_from_positions of include/sketch_fast.hpp. Compiler builtins
--   (clz, popcount) are modelled by their documented meaning.
-- - Multiplier: find_multiplier of include/sketch_fast.hpp. A left shift by 64 or more is undefined in
--   the code and a fault in the model. The search has the code's LIMIT of candidates in each round.
-- - Search: the last step shared by the array-based indexes, include/learned_indexes.hpp
--   flipped_copy and last_mile; the same lines stand inside the predecessor functions of
--   include/radix_jump.hpp and include/cluster_jump.hpp. The AVX2 intrinsics are modelled by what
--   they do on four 64-bit lanes. The halving loop has `len + 1` rounds of fuel, which is enough
--   because `len` is halved in each.
-- - SortedArray: include/structures.hpp, class SortedArray.
-- - Buckets: equal-width buckets, `shift_for`, the clamped bucket number and the table of first
--   positions, as include/radix_jump.hpp and include/cluster_jump.hpp build and read them.
-- - RadixJump: include/radix_jump.hpp. ClusterJump: include/cluster_jump.hpp.
--   ClusterJump2: include/cluster_jump2.hpp, for all values of its template parameters.
-- - ClusterJumpD: include/cluster_jump_dynamic.hpp, class ClusterJumpD: its data and
--   predecessor; ClusterJumpD/Build: rebuild and bulk_load; ClusterJumpD/Insert: insert,
--   raise_floors and collect. A bucket is a record of its arrays, and a change in place gives the next
--   record. Freed arrays are empty lists; size, bytes and stats are left out.
-- - SPlusTree: include/splus_tree.hpp, class SPlusTree<B> for B a multiple of 4. The layers of the one
--   allocation are separate lists, and the array of 16 layer sizes is the room of the loop.
-- - SplineIndex: include/spline_index.hpp, class SplineIndex<E> for even E. The arithmetic of double and
--   its cast to long long are a parameter (DoubleOps), and nothing is asked of them.
-- - Rivals: include/dynamic_rivals.hpp, TlxSet and AlexIndex. The containers of TLX and ALEX are
--   parameters. The theorem on TLX asks what its documentation says (TlxLaws). A call that changes an
--   ALEX may fail, and of ALEX the theorems ask at most its answer to the one query at hand, since
--   third_party/PATCHES.md records insertions after which it crashes or answers wrongly.
-- - FusionNode: include/fusion_node.hpp, class FusionNode<K, BranchFree>: build, sketch and the
--   parallel comparison, the rank with its repair step (Repair) and the branch-free rank
--   (BranchFree). A Boolean says whether sketches are taken by PEXT (FT_USE_PEXT).
-- - Tree: include/structures.hpp, class FusionTreeT, over any node type: an interface of build, rank and
--   key (NodeType) with what the tree relies on (NodeLaws). The vector of nodes is a list, a child's
--   index an Option; the index of a node is an int in the code, and a fault from 2 ^ 31 on (to_index).
--   FusionTree: its instance with FusionNode. BTree: class BTree, whose construction and descent are
--   the same, with the three scans of its nodes. The construction has one round of fuel for each key
--   of a range and one more, the descent one for each node and one more: ranges get smaller, and a
--   child stands behind its parent.
-- - FusionNodeCompact: include/fusion_node_compact.hpp, a node whose constants come from shared tables,
--   which are lists of rows; a read outside them is a fault.
-- - FusionNodeWide: include/fusion_node_wide.hpp, the portable comparison and the rank.
-- - PatriciaNode: include/patricia_node.hpp, class PatriciaNode<K> for K = 8 * rounds. The fuel of split
--   is one more than the number of keys, and a part of a range is smaller than the range.
-- - Learned: RSIndex of include/learned_indexes.hpp and CHTIndex of include/sosd_rivals.hpp. Pgm:
--   PGMWrap of include/learned_indexes.hpp. The indexes themselves are third-party code and a
--   parameter: the keys and the query to a range. Their theorems ask what their documentation says,
--   that the range holds the position of the first key not below the query (Holds).
-- - Rmi: include/rmi_index.hpp, class RMIIndex. The registry of generated models is a parameter, and
--   nothing is asked of the models.
-- - Tests: runs of the model, and each theorem at an input.
--
-- A structure is a record of the arrays and numbers that the class keeps; build makes it from a list
-- of keys and predecessor reads it. The out-parameter and the Boolean result of predecessor are one
-- Option. Table entries are 32-bit in the code, hence the bounds on the number of keys. Allocation
-- and release of memory, address reports (touch), byte counts and timings are not modelled, nor are
-- the programs of bench/ and the copies of other projects under third_party/.
pub mod Prelude
pub mod Word
pub mod Spec
pub mod Search
pub mod Bits
pub mod Multiplier
pub mod SPlusTree
pub mod SortedArray
pub mod SplineIndex
pub mod Rivals
pub mod Rmi
pub mod Tree
pub mod BTree
pub mod FusionTree
pub mod Buckets
pub mod RadixJump
pub mod ClusterJump
pub mod ClusterJump2
pub mod ClusterJumpD
pub mod FusionNode
pub mod FusionNodeCompact
pub mod FusionNodeWide
pub mod PatriciaNode
pub mod Learned
pub mod Pgm
mod Tests
