-- ===== src/Gates/ComparisonSound.antt =====
-- The constraints of `ComparisonGate` force its result.
use native.Mathlib.Nat.{pow-succ', pow-le-pow_right}
use mathlib.Core.Path.{subst}
use succinctx.Prelude.{
  ℕ, zero, suc, ◌+◌, ◌*◌, ◌^◌, ◌≤◌, ◌<◌, ◌≡◌, refl, sym, ap, ◌∙◌, ◌⊎◌, inl, inr, [], map, arith,
  le→leb, lt→leb_false,
}
use succinctx.Gates.Field.{Field, IsDomain, order, AllZero, AllZero-append, sub-eq-zero}
use succinctx.Gates.SubtractionSound.{bit_sound}
use succinctx.Gates.AddMany.{collect}
use succinctx.Gates.RangeCheck.{Reduce}
use succinctx.Gates.Comparison.{
  ComparisonGate, chunk_bits, chunk_loop, eval_unfiltered, wire_first_input, wire_second_input,
  wire_result_bool, wire_most_significant_diff_bit,
}
use succinctx.Gates.ComparisonChunks.{Decides, compare-cases, chunk_loop_sound, reduce-digit}
use succinctx.Uint.Gadgets.{comparison}

module _ (f : Field) (d : IsDomain f) (r : Reduce f) where
  open f use {F, zero_f, one_f, add, sub, mul, from_canonical}

  -- Bits that meet their constraints: the highest, and the number that the others make.
  bits_sound :
      (bit : ℕ → F) (left j : ℕ)
      → AllZero f (map (λ b. mul b (sub one_f b)) (collect bit (suc left) j))
      → (n : ℕ) × (t : ℕ) × (n < 2 ^ left)
        × (t < 2)
        × (bit (j + left) ≡ from_canonical t)
        × (r.reduce_with_powers (collect bit (suc left) j) (from_canonical 2)
            ≡ from_canonical (2 ^ left * t + n))
  unfolding collect
  bits_sound bit zero j z =
      let (t, ht, et) = bit_sound f d (bit j) z.0 in
      (
        0,
        t,
        omega arith,
        ht,
        ap bit (omega arith) ∙ et,
        reduce-digit f d r 2 0 t (bit j) [] et (r.reduce-nil _ ∙ sym f.from_zero)
            ∙ ap from_canonical (omega arith),
      )
  bits_sound bit (suc left) j z =
      let (b, hb, eb) = bit_sound f d (bit j) z.0 in
      let (n, t, hn, ht, et, e) = bits_sound bit left (j + 1) z.1 in
      let p : 2 ^ suc left ≡ 2 * 2 ^ left = pow-succ' 2 left in
      let q : 2 ^ suc left * t ≡ 2 * (2 ^ left * t) = ap (λ x. x * t) p ∙ omega arith in
      (
        n * 2 + b,
        t,
        omega (arith, p),
        ht,
        ap bit (omega arith) ∙ et,
        reduce-digit f d r 2 (2 ^ left * t + n) b (bit j) _ eb e
            ∙ ap from_canonical (omega (arith, q)),
      )

  bit-mul : (size t : ℕ) → t < 2 → ((t ≡ 0) × (size * t ≡ 0)) ⊎ ((t ≡ 1) × (size * t ≡ size))
  bit-mul size zero h = inl (refl, omega arith)
  bit-mul size (suc zero) h = inr (refl, omega arith)
  bit-mul size (suc (suc t)) h = absurd (omega arith)

  -- The equation of the difference and the bits, on numbers.
  difference :
      (size p q n t : ℕ)
      → size ≤ 2 ^ 62
      → p < size
      → q < size
      → n < size
      → t < 2
      → add (from_canonical size) (sub (from_canonical q) (from_canonical p))
        ≡ from_canonical (size * t + n)
      → size + q ≡ size * t + n + p
  difference size p q n t hs hp hq hn ht e =
      let small : size * t ≤ 2 ^ 62 = elim (bit-mul size t ht) [
        | inl c ↦ omega (arith, c)
        | inr c ↦ omega (arith, c)
      ] in
      d.injective (size + q) (size * t + n + p) (omega arith) (omega (arith, small)) (
        f.from_add size q
        ∙ ap (λ a. add (from_canonical size) a)
            (sym (f.sub_add (from_canonical q) (from_canonical p)))
        ∙ sym (f.add_assoc _ _ _)
        ∙ ap (λ a. add a (from_canonical p)) e
        ∙ sym (f.from_add (size * t + n) p))

  decided :
      (size x y p q n t : ℕ)
      → n < size
      → t < 2
      → Decides 0 0 x y p q
      → size + q ≡ size * t + n + p
      → t ≡ comparison x y
  unfolding comparison
  decided size x y p q n t hn ht h e = elim (compare-cases x y) [
    | inl l ↦
        let l' = h.0 l in
        rw (le→leb x y (omega (arith, l)))
          (elim (bit-mul size t ht) [ inl c ↦ absurd (omega (arith, c, e, l', hn)) | inr c ↦ c.0 ])
    | inr (inl l) ↦
        let l' = h.1 l in
        rw (lt→leb_false x y l)
          (elim (bit-mul size t ht) [ inl c ↦ c.0 | inr c ↦ absurd (omega (arith, c, e, l', hn)) ])
    | inr (inr l) ↦
        let l' = h.2 l in
        rw (le→leb x y (omega (arith, l)))
          (elim (bit-mul size t ht) [ inl c ↦ absurd (omega (arith, c, e, l', hn)) | inr c ↦ c.0 ])
  ]

  -- If all constraints of the gate are met, whatever the prover puts on the other wires, the result
  -- wire holds 1 if the first input is at most the second, else 0. The inputs are numbers below the
  -- order, the chunks cannot make a number from the order on, and a chunk has at most 62 bits.
  pub eval_unfiltered-comparison :
      (ceil_div_usize : ℕ → ℕ → ℕ) (gate : ComparisonGate) (w : ℕ → F) (x y : ℕ)
      → AllZero f (eval_unfiltered f gate w r ceil_div_usize)
      → chunk_bits ceil_div_usize gate ≤ 62
      → (2 ^ chunk_bits ceil_div_usize gate) ^ gate.num_chunks ≤ order
      → w wire_first_input ≡ from_canonical x
      → w wire_second_input ≡ from_canonical y
      → x < order
      → y < order
      → w wire_result_bool ≡ from_canonical (comparison x y)
  unfolding eval_unfiltered
  eval_unfiltered-comparison ceil_div_usize gate w x y z small fits ex ey hx hy =
      let bits = chunk_bits ceil_div_usize gate in
      let size = 2 ^ bits in
      let bit : ℕ → F = λ i. w (wire_most_significant_diff_bit gate i) in
      let out = chunk_loop f gate w size gate.num_chunks 0 zero_f in
      let bounded : size ≤ 2 ^ 62 = pow-le-pow_right (omega arith) small in
      let positive : 0 < size = pow-le-pow_right {n = 2} (omega arith) {i = 0} (omega arith) in
      let (chunks, ends) = (AllZero-append f out.0 _).0 (z.1.1) in
      let (m, n, p, q, hm, hn, em, en, decides, ed, hp, hq) =
        chunk_loop_sound f d r gate w size gate.num_chunks 0 0 0 zero_f (omega (arith, bounded))
          positive positive (sym ((sub-eq-zero f _ _).1 refl)) chunks in
      let first : m ≡ x =
        d.injective m x (omega (arith, hm, fits)) hx (sym em ∙ (sub-eq-zero f _ _).0 z.0 ∙ ex) in
      let second : n ≡ y =
        d.injective n y (omega (arith, hn, fits)) hy (sym en ∙ (sub-eq-zero f _ _).0 z.1.0 ∙ ey) in
      let (bit_constraints, last) =
        (AllZero-append f (map (λ b. mul b (sub one_f b)) (collect bit (bits + 1) 0)) _).0
          (ends.1) in
      let more : bits + 1 ≡ suc bits = omega arith in
      let (v, t, hv, ht, et, ev) = bits_sound bit bits 0 (
        subst (λ k. AllZero f (map (λ b. mul b (sub one_f b)) (collect bit k 0))) more
          bit_constraints) in
      let diff : add (from_canonical size) (sub (from_canonical q) (from_canonical p))
          ≡ from_canonical (size * t + v) =
        ap (λ a. add (from_canonical size) a) (sym ed ∙ sym ((sub-eq-zero f _ _).0 (ends.0)))
        ∙ (sub-eq-zero f _ _).0 (last.0)
        ∙ ap (λ k. r.reduce_with_powers (collect bit k 0) (from_canonical 2)) more
        ∙ ev in
      let decides' = rw (first, second) at decides in
      (sub-eq-zero f _ _).0 (last.1.0)
      ∙ ap bit (omega arith)
      ∙ et
      ∙ ap from_canonical (
          decided size x y p q v t hv ht decides'
            (difference size p q v t bounded hp hq hv ht diff))
