-- ===== src/Lib.antt =====
-- Verification of plonky2x, the Rust circuit library under plonky2x/core.
--
-- A circuit is built by Rust code that runs once, and a prover then finds values for its variables.
-- The development models a function that builds a part of a circuit by what the part makes of the
-- values of its variables: a variable is its value, a list of bytes a list of numbers below 256, an
-- integer the list of its 32-bit limbs. Code that runs outside circuits, such as the RLP decoder, is
-- modelled as it stands. Numbers are unbounded, and where the source's machine integers would
-- overflow, the model writes out what happens: a panic, or the test that prevents it.
--
-- The result of a call is an Outcome (Prelude/Outcomes): a value, a Rust panic (also a constraint that
-- no values meet), or a loop that ran out of fuel. A theorem that a call returns a value therefore says
-- that it ends.
--
-- The parts, with paths under plonky2x/core/src:
--   Prelude   shared names, tests on numbers, lists and Outcome.
--   Stream    utils/stream.rs, the byte stream that the RLP decoder reads.
--   Rlp       frontend/eth/rlp/decoder.rs in Rlp/Decoder (decode_with_stream is decode_with_stream,
--             its branches are decode_string, read_length and decode_list) and
--             frontend/eth/rlp/utils.rs in Rlp/Fixed (MPTNodeFixedSize, decode_padded_mpt_node,
--             calculate_rlp_encode_metadata, verify_decoded_list). Rlp/Encoding is the encoding of the
--             Ethereum yellow paper, which the decoder is compared with, and Rlp/Polynomial evaluates
--             the polynomials that verify_decoded_list compares at its fixed point 1000.
--   Merkle    frontend/merkle: utils.rs in Merkle/Log2, tendermint.rs in Merkle/Tendermint, simple.rs in
--             Merkle/Simple. Merkle/Split and Merkle/Root have the trees that they are compared with.
--   Uint      frontend/uint: the gadgets of num/u32/gadgets in Uint/Gadgets, num/biguint/mod.rs in
--             Uint/BigUint, Uint/Generator and Uint/Evm, uint32_n.rs in Uint/UintN, uint32.rs in
--             Uint/UintN and Uint/Evm. Uint/Value gives the number that limbs stand for. The integers of
--             64 to 512 bits are those of uint32_n.rs with 2 to 16 limbs.
--   Sha       frontend/hash/sha: pad_message_sha256 and pad_message_sha512 of sha256/pad.rs and
--             sha512/pad.rs in Sha/Pad, pad_sha256_variable_length and pad_sha512_variable_length in
--             Sha/Variable, on bytes as the eight bits of a ByteVariable.
--   Vars      frontend/vars: byte.rs in Vars/Byte; the elements and from_elements of mod.rs, variable.rs,
--             boolean.rs and array.rs in Vars/Circuit and Vars/Collections, those
--             of byte.rs in Vars/ByteLayout, tuples of collections.rs and
--             derived structs (plonky2x/derive/src/elements.rs) in Vars/Tuple, stream.rs in Vars/Streams;
--             select_array and extract_subarray of array.rs in Vars/Subarray, its hint in
--             Vars/Extractor. A layout is a record (CircuitVariable) with its laws (IsLawful), which the
--             streams and MapReduce use.
--   Fold      frontend/fold: build_inner and the checks of fold in mod.rs in Fold/Inner, the loop of
--             generator.rs in Fold/Generator. Fold/Forged has what fold does not check.
--   MapReduce frontend/mapreduce/mod.rs in MapReduce/Circuits and utils/poseidon/mod.rs in
--             MapReduce/Commitment, run_once of generator.rs in MapReduce/Generator. MapReduce/Layers
--             relates layers of pairs to a tree over halves.
--   Gates     frontend/uint/num/u32/gates: arithmetic_u32.rs in Gates/Arithmetic, add_many_u32.rs in
--             Gates/AddMany, subtraction_u32.rs in Gates/Subtraction, range_check_u32.rs in
--             Gates/RangeCheck and comparison.rs in Gates/Comparison; the circuits and the packed
--             evaluations beside these and in the Eval and Packed modules, the generators in the
--             Generator modules. The wires of a row are a function of their index, and a target of
--             eval_unfiltered_circuit is the expression that the calls of the builder make.
--   Io        frontend/builder/io.rs and the end of pre_build of frontend/builder/mod.rs in Io/Schema;
--             from_proof_with_pis of backend/circuit/input.rs and output.rs in Io/Public. An operation
--             that returns a variable is given it, and a closed schema the verifier data that plonky2
--             makes. Io/Invariant has the steps of a builder.
--
-- The RLP decoder works on the bytes of a trie node, Merkle trees and integers are used by circuits for
-- Ethereum and Tendermint light clients, and the padding by the hash circuits. Sha, Vars and Io share the
-- bytes. Uint takes what a gate computes as a function on numbers (Uint/Gadgets), and Gates relates
-- the constraints of the gate to that function. MapReduce commits to inputs by their layout in Vars.
-- The other parts are independent of each other.
--
-- Fuel: decode takes one more than the number of bytes, since each round of a loop and each nested call
-- reads a byte; log2_ceil_usize halves its argument and takes 64 rounds for a usize; the layers of a
-- Merkle tree take the logarithm of the padded number of leaves; the layers of a map-reduce are 64 at
-- most, since their number is a usize; the loop of a fold takes one turn more than there are elements.
-- That no run is stuck is proved. Lists are taken to be shorter than 2 ^ 63, as Rust's vectors are: on
-- longer ones the powers of two of Merkle trees would overflow a usize.
--
-- Parameters: hash_n_to_hash_no_pad is plonky2's Poseidon hash, of which only the length of the
-- result is used. The theorem that relies on it gives two inputs of one length with the same hash
-- otherwise, since this hash does not pad. Recursion is
-- plonky2's too: which proofs verify, with soundness (a proof that verifies has constraints that
-- hold) or completeness as hypotheses by name, which small proof systems in the Tests modules meet.
-- The challenges of extract_subarray come from plonky2's challenger. sha256 is the function that
-- the SHA-256 circuit of the curta library computes, to_u32_digits the digits that the num library
-- returns, and split_le the bits that plonky2 gives for a variable. The gates are evaluated over
-- the operations of plonky2's field and their laws (Gates/Field): those of a commutative ring, and
-- where the theorem needs it that a product is zero only if a factor is and that numbers below the
-- order are different. plonky2's to_canonical_u64, reduce_with_powers, ceil_div_usize and inverse
-- are parameters as well. The integers of Gates/Integers have these laws, and the examples are
-- evaluated over them.
--
-- Not modelled: the generator of ComparisonGate, the numbers modulo the order of the Goldilocks field,
-- serialization of gates and generators, the rest of the builder and of the backend
-- (set_witness, the writes and reads of PublicInput and PublicOutput, provers), the hash functions
-- themselves, bytes.rs and bytes32.rs, curta and elliptic curves, recursion outside fold and map-reduce,
-- and everything that is not Rust.
pub mod Prelude
pub mod Stream
pub mod Rlp
pub mod Merkle
pub mod Fold
pub mod Gates
pub mod Io
pub mod MapReduce
pub mod Uint
pub mod Sha
pub mod Vars
