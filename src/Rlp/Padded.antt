-- ===== src/Rlp/Padded.antt =====
-- `decode_padded_mpt_node` of Rlp/Fixed.antt against the RLP encoding.
use succinctx.Prelude.{
  ℕ, ◌^◌, ◌<◌, ◌≡◌, refl, true, false, List, ◌++◌, arith, ltb, lt→ltb, length, length-append, ok,
  panic,
}
use succinctx.Stream.At.{take-append}
use succinctx.Rlp.Decoder.{RlpItem}
use succinctx.Rlp.Encoding.{encode, Decodable}
use succinctx.Rlp.RoundTrip.{decode-encode}
use succinctx.Rlp.Fixed.{default_node, node_from, decode_padded_mpt_node}

-- On the padded encoding of an item, with its true length, the fixed-size decoder does what
-- `node_from` does with the item. A length beyond the array is a panic, and a call that is told to
-- skip returns the empty node. The item is one that `decode` reads back.
pub decode_padded_mpt_node-encode :
    (item : RlpItem) (rest : List ℕ)
    → Decodable item
    → length (encode item) < 2 ^ 64
    → (decode_padded_mpt_node (encode item ++ rest) (length (encode item)) false ≡ node_from item)
      × ((n : ℕ)
          → length (encode item ++ rest) < n
          → decode_padded_mpt_node (encode item ++ rest) n false ≡ panic)
      × ((n : ℕ) → decode_padded_mpt_node (encode item ++ rest) n true ≡ ok default_node)
unfolding decode_padded_mpt_node
decode_padded_mpt_node-encode item rest d fits =
    let all : ltb (length (encode item ++ rest)) (length (encode item)) ≡ false =
      ground (arith, length-append (encode item) rest) in
    (
      rw (all, take-append (encode item) rest, decode-encode item d fits),
      (λ n h. rw (lt→ltb _ _ h)),
      (λ n. refl),
    )
