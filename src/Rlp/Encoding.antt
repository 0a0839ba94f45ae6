-- ===== src/Rlp/Encoding.antt =====
-- The RLP encoding as https://ethereum.org/en/developers/docs/data-structures-and-encoding/rlp/
-- defines it: what the decoder is held against. It is no code of the repository.
use mathlib.Core.List.{reverse, reverse-append, reverse-reverse}
use succinctx.Prelude.{
  ℕ, zero, suc, ◌+◌, ◌*◌, ◌/◌, ◌%◌, ◌^◌, ◌≤◌, ◌<◌, ◌≡◌, refl, ap, ◌∙◌, ◌≢◌, List, [], ◌∷◌, ◌++◌,
  arith, ltb, leb, ◌==◌, if◌then◌else◌, length, length-append,
}
use native.Mathlib.Nat.{pow-suc, div-add-mod}
use native.Mathlib.Numerals.{towards_suc}
use succinctx.Rlp.Decoder.{RlpItem, string, list, RlpItems, nil, cons, be_fold, be_conversion}

-- The digits of `n` to base 256, the lowest first, for `n` below 256 ^ fuel.
unfoldable pub le_bytes : ℕ → ℕ → List ℕ
le_bytes zero n = []
le_bytes (suc fuel) n =
    let rest = le_bytes fuel (n / 256) in if n == 0 then [] else (n % 256) ∷ rest

-- The same digits, the highest first, for a 64-bit `n`.
unfoldable pub be_bytes : ℕ → List ℕ
be_bytes n = reverse (le_bytes 8 n)

-- What stands before a payload of `n` bytes.
unfoldable pub prefix : ℕ → ℕ → ℕ → List ℕ
prefix short long n =
    if leb n 55 then (short + n) ∷ [] else (long + length (be_bytes n)) ∷ be_bytes n

unfoldable pub encode_string : List ℕ → List ℕ
encode_string [] = prefix 0x80 0xb7 0
encode_string (x ∷ []) = if ltb x 0x80 then x ∷ [] else 0x81 ∷ x ∷ []
encode_string (x ∷ y ∷ ys) = prefix 0x80 0xb7 (length (x ∷ y ∷ ys)) ++ (x ∷ y ∷ ys)

unfoldable mutual
  pub encode : RlpItem → List ℕ
  encode (string s) = encode_string s
  encode (list xs) = prefix 0xc0 0xf7 (length (encode_items xs)) ++ encode_items xs

  pub encode_items : RlpItems → List ℕ
  encode_items nil = []
  encode_items (cons x xs) = encode x ++ encode_items xs

-- The one item that the decoder has no branch for is the string of the byte 0x7f.
abbrev mutual
  pub Decodable : RlpItem → Type 0
  Decodable (string s) = s ≢ 0x7f ∷ []
  Decodable (list xs) = DecodableItems xs

  pub DecodableItems : RlpItems → Type 0
  DecodableItems nil = Unit {0}
  DecodableItems (cons x xs) = Decodable x × DecodableItems xs

two-pow-byte : (i : ℕ) → 2 ^ (8 * (i + 1)) ≡ 256 * 2 ^ (8 * i)
two-pow-byte i =
    let e : 8 * (i + 1) ≡ 8 * i + 8 = omega arith in rw e (simp towards_suc (omega arith))

pow-step : (i n : ℕ) → (n % 256) * 2 ^ (8 * i) + n / 256 * 2 ^ (8 * (i + 1)) ≡ n * 2 ^ (8 * i)
pow-step i n = omega (
  arith,
  ap (λ (t : ℕ). t * 2 ^ (8 * i)) (div-add-mod n 256),
  ap (λ (t : ℕ). n / 256 * t) (two-pow-byte i),
)

be_fold-le_bytes :
    (fuel acc i n : ℕ) → n < 256 ^ fuel → be_fold acc i (le_bytes fuel n) ≡ acc + n * 2 ^ (8 * i)
unfolding be_fold le_bytes
be_fold-le_bytes zero acc i n h = ground arith
be_fold-le_bytes (suc fuel) acc i n h = ground (
  arith,
  pow-step i n,
  pow-suc 256 fuel,
  be_fold-le_bytes fuel (acc + (n % 256) * 2 ^ (8 * i)) (i + 1) (n / 256),
)

-- The decoder reads a length back from its bytes.
pub be_conversion-be_bytes : (n : ℕ) → n < 2 ^ 64 → be_conversion (be_bytes n) ≡ n
unfolding be_conversion be_bytes
be_conversion-be_bytes n h =
    rw reverse-reverse (be_fold-le_bytes 8 0 0 n (omega arith) ∙ omega arith)

length-le_bytes : (fuel n : ℕ) → length (le_bytes fuel n) ≤ fuel
unfolding le_bytes
length-le_bytes zero n = omega arith
length-le_bytes (suc fuel) n = ground (arith, length-le_bytes fuel (n / 256))

length-le_bytes_pos : (n : ℕ) → 0 < n → 0 < length (le_bytes 8 n)
unfolding le_bytes
length-le_bytes_pos n h = ground arith

length-reverse : (xs : List ℕ) → length (reverse xs) ≡ length xs
length-reverse [] = refl
length-reverse (x ∷ xs) =
    rw (reverse-append (x ∷ []) xs, length-append) (omega (arith, length-reverse xs))

pub length-be_bytes : (n : ℕ) → 0 < n → (0 < length (be_bytes n)) × (length (be_bytes n) ≤ 8)
unfolding be_bytes
length-be_bytes n h =
    omega (arith, length-reverse (le_bytes 8 n), length-le_bytes 8 n, length-le_bytes_pos n h)
