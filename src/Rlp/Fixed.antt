-- ===== src/Rlp/Fixed.antt =====
-- plonky2x/core/src/frontend/eth/rlp/utils.rs: trie nodes in arrays of fixed size, and the check of
-- a decoded node by polynomials. The numbers of the check (a `BigInt` and `u32` sums of at most
-- 17 * 56) do not overflow.
use succinctx.Prelude.{
  ℕ, suc, ◌+◌, ◌-◌, ◌*◌, ◌/◌, ◌%◌, ◌^◌, Bool, true, false, ◌||◌, List, [], ◌∷◌, ◌++◌, ltb, leb,
  ◌==◌, if◌then◌else◌, length, get_or, take, replicate, Outcome, ok, panic, ◌>>=◌, ◌>>◌, ensure,
}
use succinctx.Rlp.Decoder.{RlpItem, RlpItems, string, list, nil, cons, decode}

abbrev pub max_rlp_item_size : ℕ
max_rlp_item_size = 32

abbrev pub max_mpt_node_size : ℕ
max_mpt_node_size = 17

-- `bytes` is the field `data`, an array of 32 bytes.
pub record RlpItemFixedSize : Type 0 where
  pub bytes : List ℕ
  pub len : ℕ

abbrev pub default_item : RlpItemFixedSize
default_item = record { bytes = replicate max_rlp_item_size 0; len = 0 }

unfoldable pub item_from : RlpItem → Outcome RlpItemFixedSize
item_from (list xs) = panic
item_from (string s) =
    if ltb max_rlp_item_size (length s)
    then panic
    else ok (record { bytes = s ++ replicate (max_rlp_item_size - length s) 0; len = length s })

-- `items` is the field `data`, an array of 17 items.
pub record MptNodeFixedSize : Type 0 where
  pub items : List RlpItemFixedSize
  pub len : ℕ

abbrev pub default_node : MptNodeFixedSize
default_node = record { items = replicate max_mpt_node_size default_item; len = 0 }

unfoldable pub length_items : RlpItems → ℕ
length_items nil = 0
length_items (cons x xs) = suc (length_items xs)

unfoldable pub items_from : RlpItems → Outcome (List RlpItemFixedSize)
unfolding item_from
items_from nil = ok []
items_from (cons x xs) = do y ← item_from x; ys ← items_from xs; ok (y ∷ ys)

unfoldable pub node_from : RlpItem → Outcome MptNodeFixedSize
unfolding length_items items_from
node_from (string s) = panic
node_from (list ls) = do
  ensure (length_items ls == 2 || length_items ls == 17)
  ys ← items_from ls
  ok (record {
    items = ys ++ replicate (max_mpt_node_size - length_items ls) default_item;
    len = length_items ls;
  })

unfoldable pub decode_padded_mpt_node : List ℕ → ℕ → Bool → Outcome MptNodeFixedSize
decode_padded_mpt_node encoded len skip_computation =
    if skip_computation
    then ok default_node
    else if ltb (length encoded) len
    then panic
    else (decode (take len encoded) >>= node_from)

-- The prefix of the encoding of a string, and the length of the encoding.
unfoldable pub calculate_rlp_encode_metadata : RlpItemFixedSize → Outcome (ℕ × ℕ)
calculate_rlp_encode_metadata padded_string =
    let first = get_or padded_string.bytes 0 0 in
    if padded_string.len == 0
    then ok (0x80, 1)
    else if padded_string.len == 1
    then if ltb first 0x80 then ok (first, 1) else ok (0x81, 2)
    else if leb padded_string.len 55
    then ok (padded_string.len + 0x80, padded_string.len + 1)
    else panic

abbrev pub random : ℕ
random = 1000

-- `(b as u32)`.
abbrev pub indicator : Bool → ℕ
indicator true = 1
indicator false = 0

-- `for i in 0..M { encoding_poly += encoding[i] * random.pow(i) * (i < encoding_len) }`.
unfoldable pub encoding_loop : ℕ → ℕ → List ℕ → ℕ → ℕ
encoding_loop encoding_poly i [] encoding_len = encoding_poly
encoding_loop encoding_poly i (b ∷ bs) encoding_len =
    encoding_loop (encoding_poly + b * random ^ i * indicator (ltb i encoding_len)) (i + 1) bs
      encoding_len

-- The loop over the bytes of one string; `sum` is `sum_of_rlp_encoding_length`.
unfoldable pub string_loop : ℕ → ℕ → ℕ → List ℕ → ℕ → ℕ
string_loop sum poly j [] len = poly
string_loop sum poly j (b ∷ bs) len =
    string_loop sum (poly + b * random ^ (1 + sum + j) * indicator (ltb j len)) (j + 1) bs len

-- The loop over the strings of the node: the sum of the lengths, and `claim_poly`.
unfoldable pub node_loop : ℕ → ℕ → ℕ → List RlpItemFixedSize → ℕ → Outcome (ℕ × ℕ)
unfolding calculate_rlp_encode_metadata
node_loop sum claim_poly i [] len = ok (sum, claim_poly)
node_loop sum claim_poly i (x ∷ xs) len = do
  (prefix_byte, rlp_encoding_length) ← calculate_rlp_encode_metadata x
  node_loop (sum + rlp_encoding_length * indicator (ltb i len))
      (claim_poly
        + string_loop sum (prefix_byte * random ^ sum) 0 x.bytes x.len * indicator (ltb i len))
      (i + 1) xs len

-- The prefix of the whole encoding is put before the strings.
unfoldable pub add_list_prefix : ℕ → ℕ → ℕ
add_list_prefix sum claim_poly =
    if leb sum 55
    then claim_poly * random + (0xc0 + sum)
    else claim_poly * random ^ 3 + 0xf9 + sum / 256 * random + sum % 256 * random ^ 2

unfoldable pub verify_decoded_list : MptNodeFixedSize → List ℕ → ℕ → Outcome (Unit {0})
verify_decoded_list node encoding encoding_len = do
  let encoding_poly = encoding_loop 0 0 encoding encoding_len
  (sum, claim_poly) ← node_loop 0 0 0 node.items node.len
  ensure (add_list_prefix sum claim_poly == encoding_poly)
