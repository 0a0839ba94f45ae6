-- ===== src/Rlp/Tests.antt =====
-- Runs of the decoder and of the check at concrete inputs, and the theorems there.
use succinctx.Prelude.{
  ℕ, ◌<◌, ◌≡◌, refl, ◌≢◌, true, false, List, [], ◌∷◌, ◌++◌, arith, length, replicate, ok, panic,
  stuck,
}
use succinctx.Stream
use succinctx.Rlp.Decoder.{
  RlpItems, string, list, nil, cons, decode, decode_with_stream, decode_prefixed, decode_elements,
  decode_list, checked_add, decode_fuel,
}
use succinctx.Rlp.Encoding.{encode, encode_string, prefix}
use succinctx.Rlp.RoundTrip.{decode-encode}
use succinctx.Rlp.Totality.{decode-ne-stuck}
use succinctx.Rlp.Fixed.{
  MptNodeFixedSize, default_item, default_node, node_from, decode_padded_mpt_node,
  verify_decoded_list,
}
use succinctx.Rlp.Polynomial.{fixed}
use succinctx.Rlp.Verify.{is_accepted, has_low_byte, is_low_byte, verify_decoded_list-encode}
use succinctx.Rlp.Padded.{decode_padded_mpt_node-encode}

abbrev path : List ℕ
path = 0x00 ∷ 0x6f ∷ []

abbrev low_path : List ℕ
low_path = 0x20 ∷ []

abbrev hash : List ℕ
hash = replicate 32 0xa7

abbrev extension : RlpItems
extension = cons (string path) (cons (string hash) nil)

abbrev leaf : RlpItems
leaf = cons (string low_path) (cons (string hash) nil)

abbrev extension_node : MptNodeFixedSize
extension_node = record { items = fixed path ∷ fixed hash ∷ replicate 15 default_item; len = 2 }

nested :
    decode (0xc4 ∷ 0x01 ∷ 0xc2 ∷ 0x02 ∷ 0xc0 ∷ 0xff ∷ [])
    ≡ ok (
        list
          (cons (string (1 ∷ [])) (cons (list (cons (string (2 ∷ [])) (cons (list nil) nil))) nil)))
unfolding decode decode_with_stream decode_prefixed decode_elements decode_list checked_add
    Stream.read_exact decode_fuel
nested = refl

extension_is_node : node_from (list extension) ≡ ok extension_node
unfolding node_from
extension_is_node = refl

decode-ne-stuck_example : decode (0xff ∷ 0x01 ∷ []) ≢ stuck
decode-ne-stuck_example = decode-ne-stuck (0xff ∷ 0x01 ∷ [])

decode-encode_example : decode (encode (list extension)) ≡ ok (list extension)
unfolding encode encode_string prefix
decode-encode_example =
    decode-encode (list extension) ((λ e. cc e), ((λ e. cc e), tt)) (omega arith)

decode_padded_mpt_node-encode_example :
    (decode_padded_mpt_node
        (encode (list extension) ++ 0 ∷ [])
        (length (encode (list extension)))
        false
      ≡ node_from (list extension))
    × ((n : ℕ)
        → length (encode (list extension) ++ 0 ∷ []) < n
        → decode_padded_mpt_node (encode (list extension) ++ 0 ∷ []) n false ≡ panic)
    × ((n : ℕ)
        → decode_padded_mpt_node (encode (list extension) ++ 0 ∷ []) n true ≡ ok default_node)
unfolding encode encode_string prefix
decode_padded_mpt_node-encode_example =
    decode_padded_mpt_node-encode (list extension) (0 ∷ []) ((λ e. cc e), ((λ e. cc e), tt))
      (omega arith)

-- An extension node passes; a leaf whose encoded path is the byte 0x20 does not.
verify_decoded_list-encode_example :
    verify_decoded_list extension_node
      (encode (list extension) ++ 0 ∷ [])
      (length (encode (list extension)))
    ≡ ok tt
unfolding is_accepted has_low_byte is_low_byte encode encode_string prefix
verify_decoded_list-encode_example =
    verify_decoded_list-encode extension extension_node (0 ∷ []) extension_is_node

leaf_is_refused : is_accepted leaf ≡ false
unfolding is_accepted has_low_byte is_low_byte encode encode_string prefix
leaf_is_refused = refl
