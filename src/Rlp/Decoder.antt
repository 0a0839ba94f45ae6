-- ===== src/Rlp/Decoder.antt =====
-- plonky2x/core/src/frontend/eth/rlp/decoder.rs. A byte is a number below 256, a `usize` one below
-- 2 ^ 64; arithmetic that overflows is a panic, as in a build with overflow checks. The loops take
-- fuel, and `stuck` says that it ran out.
use mathlib.Core.List.{reverse}
use succinctx.Prelude.{
  ℕ, zero, suc, ◌+◌, ◌-◌, ◌*◌, ◌^◌, List, [], ◌∷◌, ltb, leb, get_or, length, if◌then◌else◌, Outcome,
  ok, panic, stuck, ◌>>=◌,
}
use succinctx.Stream
use succinctx.Stream.{Stream}

mutual
  pub data RlpItem : Type 0 where
    string : List ℕ → RlpItem
    list : RlpItems → RlpItem

  pub data RlpItems : Type 0 where
    nil : RlpItems
    cons : RlpItem → RlpItems → RlpItems

-- `acc + (x << (8 * i))` over the reversed bytes, `i` counting from 0.
unfoldable pub be_fold : ℕ → ℕ → List ℕ → ℕ
be_fold acc i [] = acc
be_fold acc i (x ∷ xs) = be_fold (acc + x * 2 ^ (8 * i)) (i + 1) xs

unfoldable pub be_conversion : List ℕ → ℕ
be_conversion ls = be_fold 0 0 (reverse ls)

-- `a + b` on `usize`.
unfoldable pub checked_add : ℕ → ℕ → Outcome ℕ
checked_add a b = if ltb (a + b) (2 ^ 64) then ok (a + b) else panic

-- `while st.position() < stop { elements.push(decode_with_stream(st)) }`.
unfoldable pub decode_elements :
    (Stream ℕ → Outcome (RlpItem × Stream ℕ)) → ℕ → ℕ → Stream ℕ → Outcome (RlpItems × Stream ℕ)
decode_elements decode_next zero stop st = if ltb st.position stop then stuck else ok (nil, st)
decode_elements decode_next (suc fuel) stop st =
    let more = (do
      (x, st') ← decode_next st
      (xs, st'') ← decode_elements decode_next fuel stop st'
      ok (cons x xs, st'')) in
    if ltb st.position stop then more else ok (nil, st)

unfoldable pub decode_string : ℕ → Stream ℕ → Outcome (RlpItem × Stream ℕ)
decode_string length st = do (bytes, st') ← Stream.read_exact st length; ok (string bytes, st')

-- The payload of a list, `length` bytes from the position on.
unfoldable pub decode_list :
    (Stream ℕ → Outcome (RlpItem × Stream ℕ)) → ℕ → ℕ → Stream ℕ → Outcome (RlpItem × Stream ℕ)
unfolding checked_add
decode_list decode_next fuel length st = do
  stop ← checked_add st.position length
  (elements, st') ← decode_elements decode_next fuel stop st
  ok (list elements, st')

-- The length of a long string or list, in the next `nb_length_bytes` bytes.
unfoldable pub read_length : ℕ → Stream ℕ → Outcome (ℕ × Stream ℕ)
read_length nb_length_bytes st = do
  (length_data, st') ← Stream.read_exact st nb_length_bytes
  ok (be_conversion length_data, st')

-- The five branches on the prefix byte. `next_byte - 0x80` is checked `u8` arithmetic.
unfoldable pub decode_prefixed :
    (Stream ℕ → Outcome (RlpItem × Stream ℕ)) → ℕ → ℕ → Stream ℕ → Outcome (RlpItem × Stream ℕ)
decode_prefixed decode_next fuel next_byte st =
    if ltb next_byte 0x7f
    then ok (string (next_byte ∷ []), st)
    else if leb next_byte 0xb7
    then if ltb next_byte 0x80 then panic else decode_string (next_byte - 0x80) st
    else if leb next_byte 0xbf
    then (do (length, st') ← read_length (next_byte - 0xb7) st; decode_string length st')
    else if leb next_byte 0xf7
    then decode_list decode_next fuel (next_byte - 0xc0) st
    else (do
      (length, st') ← read_length (next_byte - 0xf7) st
      decode_list decode_next fuel length st')

unfoldable pub decode_with_stream : ℕ → Stream ℕ → Outcome (RlpItem × Stream ℕ)
decode_with_stream zero st = stuck
decode_with_stream (suc fuel) st = do
  (byte, st') ← Stream.read_exact st 1
  decode_prefixed (decode_with_stream fuel) fuel (get_or byte 0 0) st'

-- A call reads its prefix byte before it calls itself, so the calls are no deeper than the bytes,
-- and a loop makes no more rounds than there are bytes.
unfoldable pub decode_fuel : List ℕ → ℕ
decode_fuel bytes = length bytes + 1

unfoldable pub decode : List ℕ → Outcome RlpItem
decode bytes = do (item, st) ← decode_with_stream (decode_fuel bytes) (Stream.new bytes); ok item
