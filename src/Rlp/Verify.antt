-- ===== src/Rlp/Verify.antt =====
-- Which decoded nodes the check of Rlp/Fixed.antt accepts against their own encoding.
use native.Mathlib.Nat.{one-le-pow}
use succinctx.Prelude.{
  ℕ, suc, ◌+◌, ◌-◌, ◌*◌, ◌/◌, ◌%◌, ◌^◌, ◌≤◌, ◌<◌, ◌≡◌, refl, ap, ap₂, ◌∙◌, ◌≢◌, inl, inr, Bool,
  true, false, not, ◌&&◌, ◌||◌, List, [], ◌∷◌, ◌++◌, map, arith, ltb, leb, ◌==◌, if◌then◌else◌,
  Bool-cases, length, length-append, replicate, ok, panic, ensure, >>=-eq-ok,
}
use succinctx.Rlp.Decoder.{RlpItems, string, list, nil, cons}
use succinctx.Rlp.Encoding.{encode_string, encode, encode_items, prefix, be_bytes, le_bytes}
use succinctx.Rlp.Fixed.{
  RlpItemFixedSize, MptNodeFixedSize, default_item, max_rlp_item_size, max_mpt_node_size, random,
  items_from, node_from, length_items, add_list_prefix, verify_decoded_list, encoding_loop,
  node_loop,
}
use succinctx.Rlp.Polynomial.{
  eval, encoding_loop-eval, node_loop-eval, fixed, strings, Short, extra, excess,
}

-- A string of one byte from 0x01 to 0x7f.
unfoldable pub is_low_byte : List ℕ → Bool
is_low_byte [] = false
is_low_byte (x ∷ []) = ltb 0 x && ltb x 0x80
is_low_byte (x ∷ y ∷ ys) = false

unfoldable pub has_low_byte : RlpItems → Bool
has_low_byte nil = false
has_low_byte (cons (string s) xs) = is_low_byte s || has_low_byte xs
has_low_byte (cons (list ys) xs) = has_low_byte xs

-- Payloads of 56 to 255 bytes have a length of one byte.
unfoldable pub one_length_byte : ℕ → Bool
one_length_byte n = leb 56 n && leb n 255

be_bytes_one : (n : ℕ) → 0 < n → n < 256 → be_bytes n ≡ n ∷ []
unfolding be_bytes le_bytes
be_bytes_one n h h' =
    let more : (n == 0) ≡ false = ground arith in
    let last : (n / 256 == 0) ≡ true = ground arith in
    rw (more, last) (ap (λ (t : ℕ). t ∷ []) (omega arith))

be_bytes_two : (n : ℕ) → 256 ≤ n → n < 65536 → be_bytes n ≡ (n / 256) ∷ (n % 256) ∷ []
unfolding be_bytes le_bytes
be_bytes_two n h h' =
    let more : (n == 0) ≡ false = ground arith in
    let more' : (n / 256 == 0) ≡ false = ground arith in
    let last : (n / 256 / 256 == 0) ≡ true = ground arith in
    rw (more, more', last) (ap (λ (t : ℕ). t ∷ (n % 256) ∷ []) (omega arith))

extra_low : (s : List ℕ) → is_low_byte s ≡ true → 0 < extra s
unfolding is_low_byte extra
extra_low [] h = cc
extra_low (x ∷ []) h = ground arith
extra_low (x ∷ y ∷ ys) h = cc

extra_zero : (s : List ℕ) → is_low_byte s ≡ false → extra s ≡ 0
unfolding is_low_byte extra
extra_zero [] h = refl
extra_zero (x ∷ []) h = ground arith
extra_zero (x ∷ y ∷ ys) h = refl

excess-zero : (ss : List (List ℕ)) → has_low_byte (strings ss) ≡ false → excess ss ≡ 0
unfolding has_low_byte strings excess
excess-zero [] h = refl
excess-zero (s ∷ ss) h = ground (arith, extra_zero s, excess-zero ss)

excess_pos : (ss : List (List ℕ)) → has_low_byte (strings ss) ≡ true → 0 < excess ss
unfolding has_low_byte strings excess
excess_pos [] h = cc
excess_pos (s ∷ ss) h = elim (Bool-cases (is_low_byte s)) [
  | inl low ↦ omega (arith, extra_low s low)
  | inr other ↦
      let tail : 0 < excess ss = excess_pos ss (rw other at h) in
      let weight = one-le-pow (length (encode_string s)) random (omega arith) in grind arith
]

length-encode_string-le : (s : List ℕ) → length s ≤ 32 → length (encode_string s) ≤ 33
unfolding encode_string prefix
length-encode_string-le [] h = omega arith
length-encode_string-le (x ∷ []) h = ground arith
length-encode_string-le (x ∷ y ∷ ys) h = ground arith

length-encode_items-le :
    (ss : List (List ℕ)) → Short ss → length (encode_items (strings ss)) ≤ 33 * length ss
unfolding encode_items encode strings
length-encode_items-le [] h = omega arith
length-encode_items-le (s ∷ ss) h = omega (
  arith,
  length-append (encode_string s) (encode_items (strings ss)),
  length-encode_string-le s h.0,
  length-encode_items-le ss h.1,
)

-- The claim against the encoding, by the length of the payload.
module _ (payload : List ℕ) (over : ℕ) where
  claim_short :
      length payload ≤ 55
      → add_list_prefix (length payload) (eval payload + over)
        ≡ eval (prefix 0xc0 0xf7 (length payload) ++ payload) + random * over
  unfolding add_list_prefix prefix eval
  claim_short h = ground arith

  claim_two :
      256 ≤ length payload
      → length payload < 65536
      → add_list_prefix (length payload) (eval payload + over)
        ≡ eval (prefix 0xc0 0xf7 (length payload) ++ payload) + random ^ 3 * over
  unfolding add_list_prefix prefix eval
  claim_two h h' = ground (arith, be_bytes_two (length payload))

  claim_one :
      56 ≤ length payload
      → length payload ≤ 255
      → add_list_prefix (length payload) (eval payload + over)
        ≢ eval (prefix 0xc0 0xf7 (length payload) ++ payload)
  unfolding add_list_prefix prefix eval
  claim_one h h' = ground (arith, be_bytes_one (length payload))

claim_is_exact :
    (payload : List ℕ) (over : ℕ) (low : Bool)
    → length payload < 65536
    → (low ≡ false → over ≡ 0)
    → (low ≡ true → 0 < over)
    → (add_list_prefix (length payload) (eval payload + over)
        == eval (prefix 0xc0 0xf7 (length payload) ++ payload))
      ≡ (not (one_length_byte (length payload)) && not low)
unfolding one_length_byte
claim_is_exact payload over low fits zero_ pos =
    ground (arith, claim_short payload over, claim_one payload over, claim_two payload over)

ensure-if : (b : Bool) → ensure b ≡ (if b then ok tt else panic)
ensure-if true = refl
ensure-if false = refl

-- The node whose strings are `ss`.
abbrev node_of : List (List ℕ) → MptNodeFixedSize
node_of ss = record {
  items = map fixed ss ++ replicate (max_mpt_node_size - length ss) default_item;
  len = length ss;
}

verify_node_of :
    (ss : List (List ℕ)) (rest : List ℕ)
    → Short ss
    → verify_decoded_list
        (node_of ss)
        (encode (list (strings ss)) ++ rest)
        (length (encode (list (strings ss))))
      ≡ ensure (
          add_list_prefix
            (length (encode_items (strings ss)))
            (eval (encode_items (strings ss)) + excess ss)
          == eval (encode (list (strings ss))))
unfolding verify_decoded_list
verify_node_of ss rest short =
    let enc = encode (list (strings ss)) in
    let payload = encode_items (strings ss) in
    let claim : node_loop 0 0 0 (node_of ss).items (length ss)
        ≡ ok (length payload, eval payload + excess ss) =
      node_loop-eval ss (max_mpt_node_size - length ss) 0 0 0 (length ss) short (omega arith)
      ∙ ap₂ (λ (a b : ℕ). ok (a, b)) (omega arith) (omega arith) in
    let encoding : encoding_loop 0 0 (enc ++ rest) (length enc) ≡ eval enc =
      encoding_loop-eval enc rest 0 0 (length enc) (omega arith) ∙ omega arith in
    rw (claim, encoding)

unfoldable pub is_accepted : RlpItems → Bool
unfolding one_length_byte
is_accepted xs = not (one_length_byte (length (encode_items xs))) && not (has_low_byte xs)

verify_node_of-is_accepted :
    (ss : List (List ℕ)) (rest : List ℕ)
    → Short ss
    → length ss ≤ 17
    → verify_decoded_list
        (node_of ss)
        (encode (list (strings ss)) ++ rest)
        (length (encode (list (strings ss))))
      ≡ (if is_accepted (strings ss) then ok tt else panic)
unfolding is_accepted encode
verify_node_of-is_accepted ss rest short h =
    let small = length-encode_items-le ss short in
    verify_node_of ss rest short
    ∙ ap ensure (
        claim_is_exact (encode_items (strings ss)) (excess ss) (has_low_byte (strings ss))
          (omega arith) (excess-zero ss) (excess_pos ss))
    ∙ ensure-if _

-- What `node_from` makes a node of: two or seventeen strings of at most 32 bytes.
abbrev AreStrings : RlpItems → List RlpItemFixedSize → Type 0
AreStrings xs ys =
    (ss : List (List ℕ)) × (xs ≡ strings ss)
    × (ys ≡ map fixed ss)
    × Short ss
    × (length_items xs ≡ length ss)

items_from-AreStrings :
    (xs : RlpItems) {ys : List RlpItemFixedSize} → items_from xs ≡ ok ys → AreStrings xs ys
unfolding items_from length_items strings
items_from-AreStrings nil h = ([], refl, cc, tt, refl)
items_from-AreStrings (cons (list zs) xs) h = cc
items_from-AreStrings (cons (string s) xs) {ys} h =
    elim (Bool-cases (ltb max_rlp_item_size (length s))) [
      | inl long ↦ cc (rw long at h)
      | inr fits ↦
          let (zs, others, e) =
            >>=-eq-ok (items_from xs) (λ zs. ok (fixed s ∷ zs)) (rw fits at h) in
          let (ss, p, q, short, n) = items_from-AreStrings xs others in
          (s ∷ ss, cc p, cc (e, q), (ground arith, short), ap suc n)
    ]

node_from-AreStrings :
    (xs : RlpItems) {node : MptNodeFixedSize}
    → node_from (list xs) ≡ ok node
    → (ss : List (List ℕ)) × (xs ≡ strings ss) × (node ≡ node_of ss) × Short ss × (length ss ≤ 17)
unfolding node_from
node_from-AreStrings xs {node} h =
    elim (Bool-cases (length_items xs == 2 || length_items xs == 17)) [
      | inr bad ↦ cc (rw bad at h)
      | inl good ↦
          let (ys, others, e) =
            >>=-eq-ok (items_from xs)
              (λ ys. ok (record {
                items = ys ++ replicate (max_mpt_node_size - length_items xs) default_item;
                len = length_items xs;
              }))
              (rw good at h) in
          let (ss, p, q, short, n) = items_from-AreStrings xs others in
          (ss, p, cc (e, q, n), short, ground arith)
    ]

-- A trie node that `node_from` accepts is checked against its own RLP encoding, whatever bytes stand
-- behind that: the check passes exactly when the payload of the list has not 56 to 255 bytes, and no
-- string of the node is one byte from 0x01 to 0x7f. Else it panics.
pub verify_decoded_list-encode :
    (xs : RlpItems) (node : MptNodeFixedSize) (rest : List ℕ)
    → node_from (list xs) ≡ ok node
    → verify_decoded_list node (encode (list xs) ++ rest) (length (encode (list xs)))
      ≡ (if is_accepted xs then ok tt else panic)
verify_decoded_list-encode xs node rest h =
    let (ss, p, q, short, n) = node_from-AreStrings xs h in
    rw (p, q) (verify_node_of-is_accepted ss rest short n)
