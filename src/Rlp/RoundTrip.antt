-- ===== src/Rlp/RoundTrip.antt =====
-- The decoder undoes the RLP encoding.
use succinctx.Prelude.{
  ℕ, zero, suc, ◌+◌, ◌^◌, ◌≤◌, ◌<◌, ◌≡◌, ap, ◌≢◌, inl, inr, true, List, [], ◌∷◌, ◌++◌, append-nil,
  append_assoc, arith, ltb, leb, ◌==◌, if◌then◌else◌, ltb→lt, lt→ltb, leb→le, Bool-cases, length,
  length-append, Outcome, ok, panic,
}
use succinctx.Stream.{Stream}
use succinctx.Stream.At.{at, read_exact-at}
use succinctx.Rlp.Decoder.{
  RlpItem, RlpItems, decode_elements, decode_string, decode_list, read_length, decode_prefixed,
  decode_with_stream, decode, decode_fuel, cons, nil, string, list,
}
use succinctx.Rlp.Encoding.{
  be_bytes, prefix, encode_string, encode, encode_items, Decodable, DecodableItems,
  be_conversion-be_bytes, length-be_bytes,
}

decode_string-at :
    (before s after : List ℕ)
    → decode_string (length s) (at before (s ++ after)) ≡ ok (string s, at (before ++ s) after)
unfolding decode_string
decode_string-at before s after = rw (read_exact-at before s after)

read_length-at :
    (before after : List ℕ) (n : ℕ)
    → n < 2 ^ 64
    → read_length (length (be_bytes n)) (at before (be_bytes n ++ after))
      ≡ ok (n, at (before ++ be_bytes n) after)
unfolding read_length
read_length-at before after n h =
    rw (read_exact-at before (be_bytes n) after, be_conversion-be_bytes n h)

-- One call on an item whose first byte is `b`: the byte is read, then the branch is taken.
decode_with_stream-at :
    (fuel b : ℕ) (before after : List ℕ)
    → decode_with_stream (suc fuel) (at before (b ∷ after))
      ≡ decode_prefixed (decode_with_stream fuel) fuel b (at (before ++ b ∷ []) after)
unfolding decode_with_stream
decode_with_stream-at fuel b before after = rw (read_exact-at before (b ∷ []) after)

module _ (next : Stream ℕ → Outcome (RlpItem × Stream ℕ)) (fuel : ℕ) where
  prefixed_byte :
      (b : ℕ) (st : Stream ℕ) → b < 0x7f → decode_prefixed next fuel b st ≡ ok (string (b ∷ []), st)
  unfolding decode_prefixed
  prefixed_byte b st h = rw (lt→ltb b 0x7f h)

  prefixed_short_string :
      (before s after : List ℕ)
      → length s ≤ 55
      → decode_prefixed next fuel (0x80 + length s) (at before (s ++ after))
        ≡ ok (string s, at (before ++ s) after)
  unfolding decode_prefixed
  prefixed_short_string before s after h = ground (arith, decode_string-at before s after)

  prefixed_long_string :
      (before s after : List ℕ)
      → 55 < length s
      → length s < 2 ^ 64
      → decode_prefixed next fuel
          (0xb7 + length (be_bytes (length s)))
          (at before ((be_bytes (length s) ++ s) ++ after))
        ≡ ok (string s, at (before ++ (be_bytes (length s) ++ s)) after)
  unfolding decode_prefixed
  prefixed_long_string before s after h h' =
      let bs = be_bytes (length s) in
      ground (
        arith,
        length-be_bytes (length s),
        append_assoc bs s after,
        append_assoc before bs s,
        read_length-at before (s ++ after) (length s),
        decode_string-at (before ++ bs) s after,
      )

  -- The payload of a list, where the loop over it gives the items.
  module _ (xs : RlpItems) (before payload after : List ℕ)
      (fits : length before + length payload < 2 ^ 64)
      (loop : decode_elements next fuel
          (length before + length payload)
          (at before (payload ++ after))
        ≡ ok (xs, at (before ++ payload) after)) where
    decode_list-at :
        decode_list next fuel (length payload) (at before (payload ++ after))
        ≡ ok (list xs, at (before ++ payload) after)
    unfolding decode_list
    decode_list-at = rw (lt→ltb _ _ fits, loop)

    prefixed_short_list :
        length payload ≤ 55
        → decode_prefixed next fuel (0xc0 + length payload) (at before (payload ++ after))
          ≡ ok (list xs, at (before ++ payload) after)
    unfolding decode_prefixed
    prefixed_short_list h = ground (arith, decode_list-at)

  prefixed_long_list :
      (xs : RlpItems) (before payload after : List ℕ)
      → 55 < length payload
      → length (before ++ be_bytes (length payload)) + length payload < 2 ^ 64
      → decode_elements next fuel
          (length (before ++ be_bytes (length payload)) + length payload)
          (at (before ++ be_bytes (length payload)) (payload ++ after))
        ≡ ok (xs, at ((before ++ be_bytes (length payload)) ++ payload) after)
      → decode_prefixed next fuel
          (0xf7 + length (be_bytes (length payload)))
          (at before ((be_bytes (length payload) ++ payload) ++ after))
        ≡ ok (list xs, at (before ++ (be_bytes (length payload) ++ payload)) after)
  unfolding decode_prefixed
  prefixed_long_list xs before payload after h fits loop =
      let bs = be_bytes (length payload) in
      ground (
        arith,
        length-be_bytes (length payload),
        append_assoc bs payload after,
        append_assoc before bs payload,
        read_length-at before (payload ++ after) (length payload),
        decode_list-at xs (before ++ bs) payload after fits loop,
      )

  elements_nil :
      (before after : List ℕ)
      → decode_elements next fuel (length before + 0) (at before after)
        ≡ ok (nil, at (before ++ []) after)
  elements_nil before after = rw append-nil (go fuel)
    where
      go :
          (f : ℕ)
          → decode_elements next f (length before + 0) (at before after) ≡ ok (nil, at before after)
      go zero = unfold decode_elements in ground arith
      go (suc f) = unfold decode_elements in ground arith

  elements_cons :
      (x : RlpItem) (xs : RlpItems) (before e es after : List ℕ)
      → 0 < length e
      → next (at before (e ++ (es ++ after))) ≡ ok (x, at (before ++ e) (es ++ after))
      → decode_elements next fuel
          (length (before ++ e) + length es)
          (at (before ++ e) (es ++ after))
        ≡ ok (xs, at ((before ++ e) ++ es) after)
      → decode_elements next
          (suc fuel)
          (length before + length (e ++ es))
          (at before ((e ++ es) ++ after))
        ≡ ok (cons x xs, at (before ++ (e ++ es)) after)
  unfolding decode_elements
  elements_cons x xs before e es after h first others =
      let test : ltb (length before) (length (before ++ e) + length es) ≡ true =
        lt→ltb _ _ (omega (arith, length-append before e)) in
      let stop : length before + length (e ++ es) ≡ length (before ++ e) + length es =
        omega (arith, length-append before e, length-append e es) in
      rw (stop, append_assoc e es after, test, first, others, append_assoc before e es)

module _ (fuel : ℕ) (before after : List ℕ) where
  string_prefix-decodes :
      (s : List ℕ)
      → length s < 2 ^ 64
      → decode_with_stream (suc fuel) (at before ((prefix 0x80 0xb7 (length s) ++ s) ++ after))
        ≡ ok (string s, at (before ++ (prefix 0x80 0xb7 (length s) ++ s)) after)
  unfolding prefix
  string_prefix-decodes s fits =
      let next = decode_with_stream fuel in
      elim (Bool-cases (leb (length s) 55)) [
        | inl short ↦
            let b : ℕ = 0x80 + length s in
            rw
              (
                short,
                decode_with_stream-at fuel b before (s ++ after),
                ← append_assoc before (b ∷ []) s,
              )
              (prefixed_short_string next fuel (before ++ (b ∷ [])) s after (leb→le _ _ short))
        | inr long ↦
            let bs = be_bytes (length s) in
            let b : ℕ = 0xb7 + length bs in
            rw
              (
                long,
                decode_with_stream-at fuel b before ((bs ++ s) ++ after),
                ← append_assoc before (b ∷ []) (bs ++ s),
              )
              (prefixed_long_string next fuel (before ++ (b ∷ [])) s after (ground arith) fits)
      ]

  encode_string-decodes :
      (s : List ℕ)
      → s ≢ 0x7f ∷ []
      → length before + length (encode_string s) < 2 ^ 64
      → decode_with_stream (suc fuel) (at before (encode_string s ++ after))
        ≡ ok (string s, at (before ++ encode_string s) after)
  unfolding encode_string prefix
  encode_string-decodes [] h fits = string_prefix-decodes [] (omega arith)
  encode_string-decodes (x ∷ []) h fits = elim (Bool-cases (ltb x 0x80)) [
    | inl low ↦
        rw (low, decode_with_stream-at fuel x before after)
          (prefixed_byte (decode_with_stream fuel) fuel x (at (before ++ (x ∷ [])) after)
            (omega (arith, ltb→lt x 0x80 low, λ (e : x ≡ 0x7f). h (ap (λ (t : ℕ). t ∷ []) e))))
    | inr high ↦ rw high (string_prefix-decodes (x ∷ []) (omega arith))
  ]
  encode_string-decodes (x ∷ y ∷ ys) h fits =
      string_prefix-decodes (x ∷ y ∷ ys)
        (omega (arith, length-append (prefix 0x80 0xb7 (suc (suc (length ys)))) (x ∷ y ∷ ys)))

  list_prefix-decodes :
      (xs : RlpItems) (payload : List ℕ)
      → length before + length (prefix 0xc0 0xf7 (length payload) ++ payload) < 2 ^ 64
      → ((before' : List ℕ)
          → length before' + length payload < 2 ^ 64
          → decode_elements
              (decode_with_stream fuel)
              fuel
              (length before' + length payload)
              (at before' (payload ++ after))
            ≡ ok (xs, at (before' ++ payload) after))
      → decode_with_stream
          (suc fuel)
          (at before ((prefix 0xc0 0xf7 (length payload) ++ payload) ++ after))
        ≡ ok (list xs, at (before ++ (prefix 0xc0 0xf7 (length payload) ++ payload)) after)
  unfolding prefix
  list_prefix-decodes xs payload fits loop =
      let next = decode_with_stream fuel in
      elim (Bool-cases (leb (length payload) 55)) [
        | inl short ↦
            let b : ℕ = 0xc0 + length payload in
            let seen = before ++ (b ∷ []) in
            let room : length seen + length payload < 2 ^ 64 =
              let fits' = rw short at fits in omega (arith, length-append before (b ∷ [])) in
            rw
              (
                short,
                decode_with_stream-at fuel b before (payload ++ after),
                ← append_assoc before (b ∷ []) payload,
              )
              (prefixed_short_list next fuel xs seen payload after room (loop seen room)
                (leb→le _ _ short))
        | inr long ↦
            let bs = be_bytes (length payload) in
            let b : ℕ = 0xf7 + length bs in
            let seen = before ++ (b ∷ []) in
            let room : length (seen ++ bs) + length payload < 2 ^ 64 =
              let fits' = rw long at fits in
              omega (
                arith,
                length-append before (b ∷ []),
                length-append seen bs,
                length-append (b ∷ bs) payload,
              ) in
            rw
              (
                long,
                decode_with_stream-at fuel b before ((bs ++ payload) ++ after),
                ← append_assoc before (b ∷ []) (bs ++ payload),
              )
              (prefixed_long_list next fuel xs seen payload after (ground arith) room
                (loop (seen ++ bs) room))
      ]

length-encode_pos : (item : RlpItem) → 0 < length (encode item)
unfolding encode encode_string prefix
length-encode_pos (string []) = omega arith
length-encode_pos (string (x ∷ [])) = ground arith
length-encode_pos (string (x ∷ y ∷ ys)) =
    omega (arith, length-append (prefix 0x80 0xb7 (suc (suc (length ys)))) (x ∷ y ∷ ys))
length-encode_pos (list xs) =
    ground (arith, length-append (prefix 0xc0 0xf7 (length (encode_items xs))) (encode_items xs))

length-prefixed : (xs : RlpItems) → length (encode_items xs) < length (encode (list xs))
unfolding encode prefix
length-prefixed xs =
    ground (arith, length-append (prefix 0xc0 0xf7 (length (encode_items xs))) (encode_items xs))

mutual
  unfolding encode encode_items

  encode-decodes :
      (item : RlpItem) (fuel : ℕ) (before after : List ℕ)
      → Decodable item
      → length before + length (encode item) < 2 ^ 64
      → length (encode item) ≤ fuel
      → decode_with_stream fuel (at before (encode item ++ after))
        ≡ ok (item, at (before ++ encode item) after)
  encode-decodes item zero before after d fits h = absurd (omega (arith, length-encode_pos item))
  encode-decodes (string s) (suc fuel) before after d fits h =
      encode_string-decodes fuel before after s d fits
  encode-decodes (list xs) (suc fuel) before after d fits h =
      list_prefix-decodes fuel before after xs (encode_items xs) fits λ before' fits'.
        encode_items-decode xs fuel fuel before' after d fits' (omega (arith, length-prefixed xs))
          (omega (arith, length-prefixed xs))

  encode_items-decode :
      (xs : RlpItems) (bound fuel : ℕ) (before after : List ℕ)
      → DecodableItems xs
      → length before + length (encode_items xs) < 2 ^ 64
      → length (encode_items xs) ≤ bound
      → length (encode_items xs) ≤ fuel
      → decode_elements
          (decode_with_stream bound)
          fuel
          (length before + length (encode_items xs))
          (at before (encode_items xs ++ after))
        ≡ ok (xs, at (before ++ encode_items xs) after)
  encode_items-decode nil bound fuel before after d fits h h' =
      elements_nil (decode_with_stream bound) fuel before after
  encode_items-decode (cons x xs) bound zero before after d fits h h' =
      absurd (omega (arith, length-encode_pos x, length-append (encode x) (encode_items xs)))
  encode_items-decode (cons x xs) bound (suc fuel) before after d fits h h' =
      let both = length-append (encode x) (encode_items xs) in
      let first = length-encode_pos x in
      let seen = length-append before (encode x) in
      elements_cons (decode_with_stream bound) fuel x xs before (encode x) (encode_items xs) after
        first
        (encode-decodes x bound before (encode_items xs ++ after) d.0 (omega arith) (omega arith))
        (encode_items-decode xs bound fuel (before ++ encode x) after d.1 (omega arith)
          (omega arith) (omega arith))

-- What the RLP specification encodes, the decoder reads back: `decode` returns the item, for every
-- item whose encoding is shorter than 2 ^ 64 bytes and in which no string is the one byte 0x7f.
pub decode-encode :
    (item : RlpItem)
    → Decodable item
    → length (encode item) < 2 ^ 64
    → decode (encode item) ≡ ok item
unfolding decode decode_fuel
decode-encode item d fits =
    let run = encode-decodes item (length (encode item) + 1) [] [] d (omega arith) (omega arith) in
    rw (rw append-nil at run)

-- A byte below 0x80 is its own encoding, and `decode` reads it back but for 0x7f, on which it
-- panics: the branch for such bytes tests for less than 0x7f.
pub decode-low_byte :
    (b : ℕ) (after : List ℕ)
    → b < 0x80
    → decode (b ∷ after) ≡ (if b == 0x7f then panic else ok (string (b ∷ [])))
unfolding decode decode_fuel decode_prefixed
decode-low_byte b after h =
    let fuel : length (b ∷ after) + 1 ≡ suc (length (b ∷ after)) = omega arith in
    rw (fuel, decode_with_stream-at (length (b ∷ after)) b [] after) (ground arith)
