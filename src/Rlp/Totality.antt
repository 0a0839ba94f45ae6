-- ===== src/Rlp/Totality.antt =====
-- The decoder ends on every input: the fuel of `decode` is never used up.
use succinctx.Prelude.{
  ℕ, zero, suc, ◌+◌, ◌-◌, ◌^◌, ◌≤◌, ◌<◌, ◌≢◌, inl, inr, List, arith, ltb, leb, Bool-cases, length,
  get_or, Outcome, ok, panic, stuck, ◌>>=◌,
}
use succinctx.Stream
use succinctx.Stream.{Stream}
use succinctx.Rlp.Decoder.{
  RlpItem, decode_elements, decode_string, decode_list, read_length, decode_prefixed,
  decode_with_stream, decode, decode_fuel,
}

abbrev remaining : Stream ℕ → ℕ
remaining st = length st.contents - st.position

-- A run from `st` that takes `k` bytes at least, or panics; it does not run out of fuel.
abbrev Reads : {A : Type 0} → ℕ → Stream ℕ → Outcome (A × Stream ℕ) → Type 0
Reads k st (ok (a, st')) = remaining st' + k ≤ remaining st
Reads k st panic = Unit {0}
Reads k st stuck = ⊥

bind-Reads :
    {A B : Type 0} (j k : ℕ) (st : Stream ℕ) (m : Outcome (A × Stream ℕ))
    (f : A × Stream ℕ → Outcome (B × Stream ℕ))
    → Reads j st m
    → ((a : A) (st' : Stream ℕ) → remaining st' + j ≤ remaining st → Reads k st (f (a, st')))
    → Reads k st (m >>= f)
bind-Reads j k st (ok (a, st')) f r h = h a st' r
bind-Reads j k st panic f r h = tt
bind-Reads j k st stuck f r h = absurd r

weaken :
    {A : Type 0} (j k : ℕ) (st st' : Stream ℕ) (m : Outcome (A × Stream ℕ))
    → remaining st' + k ≤ remaining st + j
    → Reads j st' m
    → Reads k st m
weaken j k st st' (ok (a, s)) h r = omega arith
weaken j k st st' panic h r = tt
weaken j k st st' stuck h r = r

read_exact-Reads : (st : Stream ℕ) (n : ℕ) → Reads n st (Stream.read_exact st n)
unfolding Stream.read_exact
read_exact-Reads st n = elim (Bool-cases (ltb (length st.contents) (st.position + n))) [
  | inl e ↦ rw e tt
  | inr e ↦ rw e (ground arith)
]

read_length-Reads : (st : Stream ℕ) (n : ℕ) → Reads 0 st (read_length n st)
unfolding read_length
read_length-Reads st n = bind-Reads n 0 st _ _ (read_exact-Reads st n) (λ a st' h. omega arith)

decode_string-Reads : (st : Stream ℕ) (n : ℕ) → Reads 0 st (decode_string n st)
unfolding decode_string
decode_string-Reads st n = bind-Reads n 0 st _ _ (read_exact-Reads st n) (λ a st' h. omega arith)

module _ (decode_next : Stream ℕ → Outcome (RlpItem × Stream ℕ)) (bound : ℕ)
    (next : (st : Stream ℕ) → remaining st < bound → Reads 1 st (decode_next st)) where
  decode_elements-Reads :
      (fuel stop : ℕ) (st : Stream ℕ)
      → remaining st < fuel
      → remaining st < bound
      → Reads 0 st (decode_elements decode_next fuel stop st)
  unfolding decode_elements
  decode_elements-Reads zero stop st f b = absurd (omega arith)
  decode_elements-Reads (suc fuel) stop st f b = elim (Bool-cases (ltb st.position stop)) [
    | inr e ↦ rw e (omega arith)
    | inl e ↦ rw e (
        bind-Reads 1 0 st _ _ (next st b) λ x st' h.
          bind-Reads 0 0 st _ _
            (weaken 0 0 st st' _ (omega arith)
              (decode_elements-Reads fuel stop st' (omega arith) (omega arith)))
            λ xs st'' h'. omega arith)
  ]

  decode_list-Reads :
      (fuel n : ℕ) (st : Stream ℕ)
      → remaining st < fuel
      → remaining st < bound
      → Reads 0 st (decode_list decode_next fuel n st)
  unfolding decode_list
  decode_list-Reads fuel n st f b = elim (Bool-cases (ltb (st.position + n) (2 ^ 64))) [
    | inr e ↦ rw e tt
    | inl e ↦
        rw e (
          bind-Reads 0 0 st _ _ (decode_elements-Reads fuel (st.position + n) st f b) λ xs st' h. h)
  ]

  decode_prefixed-Reads :
      (fuel byte : ℕ) (st : Stream ℕ)
      → remaining st < fuel
      → remaining st < bound
      → Reads 0 st (decode_prefixed decode_next fuel byte st)
  unfolding decode_prefixed
  decode_prefixed-Reads fuel byte st f b = elim (Bool-cases (ltb byte 0x7f)) [
    | inl e ↦ rw e (omega arith)
    | inr e ↦ rw e (elim (Bool-cases (leb byte 0xb7)) [
      | inl e1 ↦ rw e1 (elim (Bool-cases (ltb byte 0x80)) [
        | inl e2 ↦ rw e2 tt
        | inr e2 ↦ rw e2 (decode_string-Reads st (byte - 0x80))
      ])
      | inr e1 ↦ rw e1 (elim (Bool-cases (leb byte 0xbf)) [
        | inl e2 ↦ rw e2 (
            bind-Reads 0 0 st _ _ (read_length-Reads st (byte - 0xb7))
              λ n st' h. weaken 0 0 st st' _ (omega arith) (decode_string-Reads st' n))
        | inr e2 ↦ rw e2 (elim (Bool-cases (leb byte 0xf7)) [
          | inl e3 ↦ rw e3 (decode_list-Reads fuel (byte - 0xc0) st f b)
          | inr e3 ↦ rw e3 (
              bind-Reads 0 0 st _ _ (read_length-Reads st (byte - 0xf7)) λ n st' h.
                weaken 0 0 st st' _ (omega arith)
                  (decode_list-Reads fuel n st' (omega arith) (omega arith)))
        ])
      ])
    ])
  ]

decode_with_stream-Reads :
    (fuel : ℕ) (st : Stream ℕ) → remaining st < fuel → Reads 1 st (decode_with_stream fuel st)
unfolding decode_with_stream
decode_with_stream-Reads zero st h = absurd (omega arith)
decode_with_stream-Reads (suc fuel) st h =
    bind-Reads 1 1 st _ _ (read_exact-Reads st 1) λ byte st' h'. weaken 0 1 st st' _ (omega arith) (
      decode_prefixed-Reads (decode_with_stream fuel) fuel (decode_with_stream-Reads fuel) fuel
        (get_or byte 0 0) st' (omega arith) (omega arith))

Reads→ne-stuck :
    (k : ℕ) (st : Stream ℕ) (m : Outcome (RlpItem × Stream ℕ))
    → Reads k st m
    → (m >>= λ (item, st'). ok item) ≢ stuck
Reads→ne-stuck k st (ok (item, st')) r = λ e. cc
Reads→ne-stuck k st panic r = λ e. cc
Reads→ne-stuck k st stuck r = absurd r

-- On every list of bytes `decode` returns an item or panics: its loops and calls end.
pub decode-ne-stuck : (bytes : List ℕ) → decode bytes ≢ stuck
unfolding decode decode_fuel
decode-ne-stuck bytes =
    Reads→ne-stuck 1 _ _
      (decode_with_stream-Reads (length bytes + 1) (Stream.new bytes) (omega arith))
