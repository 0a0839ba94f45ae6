-- ===== src/Sha/Accept.antt =====
-- For which lengths the padding of variable length can be proved.
use mathlib.Core.List.{reverse}
use succinctx.Prelude.{
  ℕ, zero, suc, ◌+◌, ◌-◌, ◌*◌, ◌/◌, ◌%◌, ◌^◌, ◌<◌, ◌≡◌, refl, ap, ap₂, ◌∙◌, Bool, true, false, not,
  ◌&&◌, ◌||◌, List, ◌++◌, arith, ltb, leb, ◌==◌, if◌then◌else◌, length, length-append, replicate,
  ok, panic,
}
use succinctx.Sha.Pad.{Byte, byte_constant, from_targets}
use succinctx.Sha.Variable.{
  num_chunks, byte_loop, chunk_loop, pad_sha256_variable_length, pad_sha512_variable_length,
}

reach_step :
    (reached : Bool) (i last left : ℕ)
    → ((reached || (i == last)) || (leb (i + 1) last && ltb last (i + 1 + left)))
      ≡ (reached || (leb i last && ltb last (i + suc left)))
reach_step reached i last left = ground arith

select_step :
    (selector : Bool) (a c d b t n : ℕ)
    → b ≡ a + c
    → t ≡ c + d
    → ((selector && not (leb (a + 0) n && ltb n (a + 0 + c))) && not (leb b n && ltb n (b + d)))
      ≡ (selector && not (leb a n && ltb n (a + t)))
select_step selector a c d b t n h h' = ground arith

module _ (chunk_size length_size : ℕ) (padded_input length_bytes : List Byte) (n : ℕ) where
  byte_loop-selector :
      (left j offset : ℕ) (is_last selector : Bool)
      → (byte_loop chunk_size length_size padded_input length_bytes n left j offset is_last
          selector).1
        ≡ (selector && not (leb (offset + j) n && ltb n (offset + j + left)))
  unfolding byte_loop
  byte_loop-selector zero j offset is_last selector = ground arith
  byte_loop-selector (suc left) j offset is_last selector =
      byte_loop-selector left (j + 1) offset is_last _ ∙ ground arith

  byte_loop-length :
      (left j offset : ℕ) (is_last selector : Bool)
      → length
          (byte_loop chunk_size length_size padded_input length_bytes n left j offset is_last
            selector).0
        ≡ left
  unfolding byte_loop
  byte_loop-length zero j offset is_last selector = refl
  byte_loop-length (suc left) j offset is_last selector =
      ap suc (byte_loop-length left (j + 1) offset is_last _)

  chunk_loop-flags :
      (left i last : ℕ) (reached selector : Bool)
      → let r =
          chunk_loop chunk_size length_size padded_input length_bytes n left i last reached
            selector in
        (length r.0 ≡ chunk_size * left)
        × (r.1 ≡ (reached || (leb i last && ltb last (i + left))))
        × (r.2 ≡ (
            selector && not (leb (chunk_size * i) n && ltb n (chunk_size * i + chunk_size * left))))
  unfolding chunk_loop
  chunk_loop-flags zero i last reached selector = (omega arith, ground arith, ground arith)
  chunk_loop-flags (suc left) i last reached selector =
      let chunk =
        byte_loop chunk_size length_size padded_input length_bytes n chunk_size 0 (chunk_size * i)
          (i == last) selector in
      let size = byte_loop-length chunk_size 0 (chunk_size * i) (i == last) selector in
      let here = byte_loop-selector chunk_size 0 (chunk_size * i) (i == last) selector in
      let (len, reach, sel) = chunk_loop-flags left (i + 1) last (reached || (i == last)) chunk.1 in
      (
        omega (arith, length-append chunk.0 _, size, len),
        reach ∙ reach_step reached i last left,
        sel
            ∙ ap
                (λ s.
                  s
                  && not (
                      leb (chunk_size * (i + 1)) n
                      && ltb n (chunk_size * (i + 1) + chunk_size * left)))
                here
            ∙ select_step selector (chunk_size * i) chunk_size (chunk_size * left)
                (chunk_size * (i + 1)) (chunk_size * suc left) n (omega arith) (omega arith),
      )

accept_sha256 :
    (n m : ℕ)
    → n + 8 < 2 ^ 32
    → (not (true && not (leb (64 * 0) n && ltb n (64 * 0 + 64 * m)))
        && (false || (leb 0 ((n + 8) % 2 ^ 32 / 64) && ltb ((n + 8) % 2 ^ 32 / 64) (0 + m))))
      ≡ leb (n + 9) (64 * m)
accept_sha256 n m h = ground arith

accept_sha512 :
    (n m : ℕ)
    → n + 16 < 2 ^ 32
    → (not (true && not (leb (128 * 0) n && ltb n (128 * 0 + 128 * m)))
        && (false || (leb 0 ((n + 16) % 2 ^ 32 / 128) && ltb ((n + 16) % 2 ^ 32 / 128) (0 + m))))
      ≡ leb (n + 17) (128 * m)
accept_sha512 n m h = ground arith

-- For a length below 2 ^ 32 - 8, and whatever bits split_le gives, pad_sha256_variable_length
-- returns as many chunks of 64 bytes as the longest message needs if the length and the nine bytes
-- of padding fit them, which a length above the number of input bytes can, and panics otherwise.
pub pad_sha256_variable_length-accepts :
    (split_le : ℕ → ℕ → List Bool) (input : List Byte) (n : ℕ)
    → n + 8 < 2 ^ 32
    → (bytes : List Byte) × (length bytes ≡ 64 * num_chunks 64 8 (length input))
      × (pad_sha256_variable_length split_le input n
          ≡ (if leb (n + 9) (64 * num_chunks 64 8 (length input)) then ok bytes else panic))
unfolding pad_sha256_variable_length
pad_sha256_variable_length-accepts split_le input n h =
    let m = num_chunks 64 8 (length input) in
    let padded = input ++ replicate (m * 64 - length input) (byte_constant 0) in
    let lengths = from_targets (reverse (split_le (n * 8 % 2 ^ 32) (8 * 8))) in
    let last = (n + 8) % 2 ^ 32 / 64 in
    let bytes = (chunk_loop 64 8 padded lengths n m 0 last false true).0 in
    let (len, reach, sel) = chunk_loop-flags 64 8 padded lengths n m 0 last false true in
    (
      bytes,
      len,
      ap₂ (λ s r. if not s && r then ok bytes else panic) sel reach
          ∙ ap (λ t. if t then ok bytes else panic) (accept_sha256 n m h),
    )

-- For a length below 2 ^ 32 - 16, and whatever bits split_le gives, pad_sha512_variable_length
-- returns as many chunks of 128 bytes as the longest message needs if the length and the 17 bytes
-- of padding fit them, which a length above the number of input bytes can, and panics otherwise.
pub pad_sha512_variable_length-accepts :
    (split_le : ℕ → ℕ → List Bool) (input : List Byte) (n : ℕ)
    → n + 16 < 2 ^ 32
    → (bytes : List Byte) × (length bytes ≡ 128 * num_chunks 128 16 (length input))
      × (pad_sha512_variable_length split_le input n
          ≡ (if leb (n + 17) (128 * num_chunks 128 16 (length input)) then ok bytes else panic))
unfolding pad_sha512_variable_length
pad_sha512_variable_length-accepts split_le input n h =
    let m = num_chunks 128 16 (length input) in
    let padded = input ++ replicate (m * 128 - length input) (byte_constant 0) in
    let lengths = from_targets (reverse (split_le (n * 8 % 2 ^ 32) (16 * 8))) in
    let last = (n + 16) % 2 ^ 32 / 128 in
    let bytes = (chunk_loop 128 16 padded lengths n m 0 last false true).0 in
    let (len, reach, sel) = chunk_loop-flags 128 16 padded lengths n m 0 last false true in
    (
      bytes,
      len,
      ap₂ (λ s r. if not s && r then ok bytes else panic) sel reach
          ∙ ap (λ t. if t then ok bytes else panic) (accept_sha512 n m h),
    )
