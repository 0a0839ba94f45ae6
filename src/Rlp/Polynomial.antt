-- ===== src/Rlp/Polynomial.antt =====
-- The polynomials of the check in Rlp/Fixed.antt, evaluated: each loop adds up the bytes of a list
-- as digits to base 1000.
use native.Mathlib.Nat.{pow-suc}
use succinctx.Prelude.{
  ℕ, zero, suc, ◌+◌, ◌-◌, ◌*◌, ◌^◌, ◌≤◌, ◌<◌, ◌≡◌, refl, ap₂, ◌∙◌, false, List, [], ◌∷◌, ◌++◌, map,
  arith, ltb, if◌then◌else◌, lt→ltb, length, length-append, get_or, replicate, ok,
}
use succinctx.Rlp.Decoder.{RlpItems, string, nil, cons}
use succinctx.Rlp.Encoding.{encode_string, encode_items, prefix}
use succinctx.Rlp.Fixed.{
  RlpItemFixedSize, default_item, max_rlp_item_size, random, indicator,
  calculate_rlp_encode_metadata, encoding_loop, string_loop, node_loop,
}

unfoldable pub eval : List ℕ → ℕ
eval [] = 0
eval (b ∷ bs) = b + random * eval bs

pow-add : (a b : ℕ) → random ^ (a + b) ≡ random ^ a * random ^ b
pow-add zero b = ground arith
pow-add (suc a) b =
    let e : suc a + b ≡ suc (a + b) = omega arith in
    rw (e, pow-suc random (a + b), pow-suc random a, pow-add a b) (omega arith)

pow-next : (i : ℕ) → random ^ (i + 1) ≡ random * random ^ i
pow-next i = omega (arith, pow-add i 1)

pub eval-append : (xs ys : List ℕ) → eval (xs ++ ys) ≡ eval xs + random ^ length xs * eval ys
unfolding eval
eval-append [] ys = omega arith
eval-append (x ∷ xs) ys = rw (eval-append xs ys, pow-suc random (length xs)) (omega arith)

encoding_loop_past : (bs : List ℕ) (poly i len : ℕ) → len ≤ i → encoding_loop poly i bs len ≡ poly
unfolding encoding_loop
encoding_loop_past [] poly i len h = refl
encoding_loop_past (b ∷ bs) poly i len h =
    ground
      (arith, encoding_loop_past bs (poly + b * random ^ i * indicator (ltb i len)) (i + 1) len)

encoding_loop_step :
    (bs : List ℕ) (poly i len b : ℕ)
    → i < len
    → encoding_loop poly i (b ∷ bs) len ≡ encoding_loop (poly + b * random ^ i) (i + 1) bs len
unfolding encoding_loop
encoding_loop_step bs poly i len b h = ground arith

pub encoding_loop-eval :
    (bs rest : List ℕ) (poly i len : ℕ)
    → len ≡ i + length bs
    → encoding_loop poly i (bs ++ rest) len ≡ poly + random ^ i * eval bs
unfolding eval
encoding_loop-eval [] rest poly i len h =
    omega (arith, encoding_loop_past rest poly i len (omega arith))
encoding_loop-eval (b ∷ bs) rest poly i len h =
    rw
      (
        encoding_loop_step (bs ++ rest) poly i len b (omega arith),
        encoding_loop-eval bs rest (poly + b * random ^ i) (i + 1) len (omega arith),
        pow-next i,
      )
      (omega arith)

string_loop_past :
    (sum : ℕ) (bs : List ℕ) (poly j len : ℕ) → len ≤ j → string_loop sum poly j bs len ≡ poly
unfolding string_loop
string_loop_past sum [] poly j len h = refl
string_loop_past sum (b ∷ bs) poly j len h = ground (
  arith,
  string_loop_past sum bs (poly + b * random ^ (1 + sum + j) * indicator (ltb j len)) (j + 1) len,
)

string_loop_step :
    (sum : ℕ) (bs : List ℕ) (poly j len b : ℕ)
    → j < len
    → string_loop sum poly j (b ∷ bs) len
      ≡ string_loop sum (poly + b * random ^ (1 + sum + j)) (j + 1) bs len
unfolding string_loop
string_loop_step sum bs poly j len b h = ground arith

pub string_loop-eval :
    (sum : ℕ) (bs rest : List ℕ) (poly j len : ℕ)
    → len ≡ j + length bs
    → string_loop sum poly j (bs ++ rest) len ≡ poly + random ^ (1 + sum + j) * eval bs
unfolding eval
string_loop-eval sum [] rest poly j len h =
    omega (arith, string_loop_past sum rest poly j len (omega arith))
string_loop-eval sum (b ∷ bs) rest poly j len h =
    let e : 1 + sum + (j + 1) ≡ 1 + sum + j + 1 = omega arith in
    rw
      (
        string_loop_step sum (bs ++ rest) poly j len b (omega arith),
        string_loop-eval sum bs rest (poly + b * random ^ (1 + sum + j)) (j + 1) len (omega arith),
        e,
        pow-next (1 + sum + j),
      )
      (omega arith)

-- A string in its fixed-size form, and a node of the strings `ss`.
abbrev pub fixed : List ℕ → RlpItemFixedSize
fixed s = record { bytes = s ++ replicate (max_rlp_item_size - length s) 0; len = length s }

unfoldable pub strings : List (List ℕ) → RlpItems
strings [] = nil
strings (s ∷ ss) = cons (string s) (strings ss)

abbrev pub Short : List (List ℕ) → Type 0
Short [] = Unit {0}
Short (s ∷ ss) = (length s ≤ max_rlp_item_size) × Short ss

-- A byte that is its own encoding is counted once as the prefix and once as the string.
unfoldable pub extra : List ℕ → ℕ
extra [] = 0
extra (x ∷ []) = if ltb x 0x80 then random * x else 0
extra (x ∷ y ∷ ys) = 0

unfoldable pub excess : List (List ℕ) → ℕ
excess [] = 0
excess (s ∷ ss) = extra s + random ^ length (encode_string s) * excess ss

-- The metadata of a string of at most 32 bytes: the first byte of its RLP encoding, and the length
-- of that encoding.
pub calculate_rlp_encode_metadata-encode_string :
    (s : List ℕ)
    → length s ≤ max_rlp_item_size
    → calculate_rlp_encode_metadata (fixed s)
      ≡ ok (get_or (encode_string s) 0 0, length (encode_string s))
unfolding calculate_rlp_encode_metadata encode_string prefix
calculate_rlp_encode_metadata-encode_string [] h = refl
calculate_rlp_encode_metadata-encode_string (x ∷ []) h = ground arith
calculate_rlp_encode_metadata-encode_string (x ∷ y ∷ ys) h = ground arith

first-eval :
    (s : List ℕ)
    → length s ≤ max_rlp_item_size
    → get_or (encode_string s) 0 0 + random * eval s ≡ eval (encode_string s) + extra s
unfolding encode_string prefix eval extra
first-eval [] h = refl
first-eval (x ∷ []) h = ground arith
first-eval (x ∷ y ∷ ys) h = ground arith

-- One round past the strings of the node, and one on a string of it.
node_loop_skip :
    (x : RlpItemFixedSize) (xs : List RlpItemFixedSize) (sum claim i len prefix_byte l : ℕ)
    → len ≤ i
    → calculate_rlp_encode_metadata x ≡ ok (prefix_byte, l)
    → node_loop sum claim i (x ∷ xs) len ≡ node_loop sum claim (i + 1) xs len
unfolding node_loop
node_loop_skip x xs sum claim i len prefix_byte l h m =
    rw (m, not_ltb) (ap₂ (λ a b. node_loop a b (i + 1) xs len) (omega arith) (omega arith))
  where
    not_ltb : ltb i len ≡ false
    not_ltb = ground arith

node_loop_take :
    (x : RlpItemFixedSize) (xs : List RlpItemFixedSize) (sum claim i len prefix_byte l : ℕ)
    → i < len
    → calculate_rlp_encode_metadata x ≡ ok (prefix_byte, l)
    → node_loop sum claim i (x ∷ xs) len
      ≡ node_loop
          (sum + l)
          (claim + string_loop sum (prefix_byte * random ^ sum) 0 x.bytes x.len)
          (i + 1)
          xs
          len
unfolding node_loop
node_loop_take x xs sum claim i len prefix_byte l h m =
    rw (m, lt→ltb i len h) (ap₂ (λ a b. node_loop a b (i + 1) xs len) (omega arith) (omega arith))

node_loop_past :
    (k sum claim i len : ℕ)
    → len ≤ i
    → node_loop sum claim i (replicate k default_item) len ≡ ok (sum, claim)
node_loop_past zero sum claim i len h = unfold node_loop in refl
node_loop_past (suc k) sum claim i len h =
    node_loop_skip default_item _ sum claim i len 0x80 1 h
      (unfold calculate_rlp_encode_metadata in refl)
    ∙ node_loop_past k sum claim (i + 1) len (omega arith)

-- What a string adds to the claim.
string_claim :
    (s : List ℕ) (sum : ℕ)
    → length s ≤ max_rlp_item_size
    → string_loop sum (get_or (encode_string s) 0 0 * random ^ sum) 0 (fixed s).bytes (fixed s).len
      ≡ random ^ sum * (eval (encode_string s) + extra s)
string_claim s sum h =
    let e : 1 + sum + 0 ≡ sum + 1 = omega arith in
    rw
      (
        string_loop-eval sum s (replicate (max_rlp_item_size - length s) 0)
            (get_or (encode_string s) 0 0 * random ^ sum) 0 (length s) (omega arith),
        ← first-eval s h,
        e,
        pow-next sum,
      )
      (omega arith)

pub node_loop-eval :
    (ss : List (List ℕ)) (k sum claim i len : ℕ)
    → Short ss
    → len ≡ i + length ss
    → node_loop sum claim i (map fixed ss ++ replicate k default_item) len
      ≡ ok (
        sum + length (encode_items (strings ss)),
        claim + random ^ sum * (eval (encode_items (strings ss)) + excess ss),
      )
unfolding strings encode_items excess eval
node_loop-eval [] k sum claim i len short h =
    node_loop_past k sum claim i len (omega arith)
    ∙ ap₂ (λ (a b : ℕ). ok (a, b)) (omega arith) (omega arith)
node_loop-eval (s ∷ ss) k sum claim i len (hs, short) h =
    let l = length (encode_string s) in
    let rest = map fixed ss ++ replicate k default_item in
    let claim' = claim + random ^ sum * (eval (encode_string s) + extra s) in
    let es = encode_items (strings ss) in
    rw
      (
        node_loop_take (fixed s) rest sum claim i len _ l (omega arith)
            (calculate_rlp_encode_metadata-encode_string s hs),
        string_claim s sum hs,
        node_loop-eval ss k (sum + l) claim' (i + 1) len short (omega arith),
      )
      (ap₂ (λ (a b : ℕ). ok (a, b)) (omega (arith, length-append (encode_string s) es))
        (rw (eval-append (encode_string s) es, pow-add sum l) (omega arith)))
