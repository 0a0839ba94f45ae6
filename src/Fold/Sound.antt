-- ===== src/Fold/Sound.antt =====
-- What a proof that `fold` accepts says.
use succinctx.Prelude.{
  ℕ, zero, suc, ◌+◌, ◌%◌, ◌^◌, ◌<◌, ◌≡◌, refl, ap, ap₂, ◌∙◌, Bool, true, false, not, ◌&&◌, ◌||◌,
  List, [], ◌∷◌, ◌++◌, arith, ltb, ◌==◌, if◌then◌else◌, length, length-append, ok, >>=-eq-ok,
  ensure-eq-ok, ensure-true,
}
use succinctx.Fold.Inner.{
  CyclicPublicValues, FoldDefinition, Plonky2, inner_valid, build_inner, fold, folds,
}

module _ {Ctx Element Accumulator : Type 0}
    (definition : FoldDefinition Ctx Element Accumulator) where
  -- One more step.
  pub folds-append :
      (ctx : Ctx) (i : ℕ) (acc b : Accumulator) (xs : List Element) (x : Element) {a : Accumulator}
      → folds definition ctx i acc xs ≡ ok a
      → definition.fold_step ctx x a (i + length xs) ≡ ok b
      → folds definition ctx i acc (xs ++ x ∷ []) ≡ ok b
  unfolding folds
  folds-append ctx i acc b [] x {a} e e' =
      let here : i ≡ i + 0 = omega arith in
      let start : definition.fold_step ctx x acc i ≡ definition.fold_step ctx x a (i + 0) =
        ap₂ (λ b' j. definition.fold_step ctx x b' j) (cc e) here in
      rw (start, e') refl
  folds-append ctx i acc b (y ∷ xs) x {a} e e' =
      let (next, p, q) = >>=-eq-ok (definition.fold_step ctx y acc i) _ e in
      let shift : i + suc (length xs) ≡ i + 1 + length xs = omega arith in
      rw p (folds-append ctx (i + 1) next b xs x q (rw (← shift) e'))

module _ {Ctx Element Accumulator Verifier Proof : Type 0}
    (definition : FoldDefinition Ctx Element Accumulator)
    (plonky2 : Plonky2 Ctx Element Accumulator Verifier Proof) where
  -- Such a proof is checked against the verifier data of its own circuit, and carries them.
  abbrev pub ChecksCyclicProof : Type 0
  ChecksCyclicProof =
      (proof : Proof) (data' : Verifier)
      → plonky2.conditionally_verify_cyclic_proof_or_dummy true proof data' ≡ true
      → (plonky2.verify data' proof ≡ true) × ((plonky2.public_values proof).verifier_data ≡ data')

  -- A proof of the inner circuit has a proof before it with which the constraints hold.
  abbrev pub IsSound : Verifier → Type 0
  IsSound data' =
      (proof : Proof)
      → plonky2.verify data' proof ≡ true
      → (inner : Proof) × (build_inner definition plonky2 (plonky2.public_values proof) inner
          ≡ ok tt)

  -- The constraints of one step, taken apart.
  abbrev pub Step : CyclicPublicValues Ctx Element Accumulator Verifier → Proof → Type 0
  Step pis inner_proof =
      let inner = plonky2.public_values inner_proof in
      let proved =
        plonky2.conditionally_verify_cyclic_proof_or_dummy (not (pis.index == 0)) inner_proof
          pis.verifier_data in
      (pis.index < 2 ^ 32)
      × (definition.fold_step pis.ctx pis.element (if pis.index == 0 then pis.initial else pis.prev)
            pis.index
          ≡ ok pis.output)
      × ((inner_valid definition plonky2 pis inner || (pis.index == 0)) ≡ true)
      × (proved ≡ true)

  pub build_inner-Step :
      (pis : CyclicPublicValues Ctx Element Accumulator Verifier) (inner_proof : Proof)
      → build_inner definition plonky2 pis inner_proof ≡ ok tt
      → Step pis inner_proof
  unfolding build_inner
  build_inner-Step pis inner_proof e =
      let (bound, e1) = ensure-eq-ok (ltb pis.index (2 ^ 32)) _ e in
      let (next, step, e2) =
        >>=-eq-ok
          (definition.fold_step pis.ctx pis.element
            (if pis.index == 0 then pis.initial else pis.prev) pis.index)
          _ e1 in
      let (same, e3) = ensure-eq-ok (definition.accumulator_equal next pis.output) _ e2 in
      let (room, e3') =
        ensure-eq-ok (ltb ((plonky2.public_values inner_proof).index + 1) (2 ^ 36)) _ e3 in
      let (valid, e4) =
        ensure-eq-ok
          (inner_valid definition plonky2 pis (plonky2.public_values inner_proof)
            || (pis.index == 0))
          _ e3' in
      let equal = (definition.accumulator_equal_iff next pis.output).0 same in
      (ground arith, step ∙ ap ok equal, valid, ensure-true _ e4)

  and_true : (a b : Bool) → (a && b) ≡ true → (a ≡ true) × (b ≡ true)
  and_true true true e = (refl, refl)
  and_true true false e = cc
  and_true false b e = cc

  or_false : (a b : Bool) → (a || b) ≡ true → b ≡ false → a ≡ true
  or_false true b e h = refl
  or_false false b e h = absurd (cc (e, h))

  -- What the circuit of a step that is not the first says of the proof before it.
  inner_valid-fields :
      (pis inner : CyclicPublicValues Ctx Element Accumulator Verifier)
      → inner_valid definition plonky2 pis inner ≡ true
      → (inner.ctx ≡ pis.ctx)
        × (inner.initial ≡ pis.initial)
        × (inner.output ≡ pis.prev)
        × ((inner.index + 1) % 2 ^ 32 ≡ pis.index)
  unfolding inner_valid
  inner_valid-fields pis inner e =
      let (values, index) = and_true _ ((inner.index + 1) % 2 ^ 32 == pis.index) e in
      let (same, output) = and_true _ (definition.accumulator_equal inner.output pis.prev) values in
      let (ctx, initial) = and_true (definition.ctx_equal inner.ctx pis.ctx) _ same in
      (
        (definition.ctx_equal_iff inner.ctx pis.ctx).0 ctx,
        (definition.accumulator_equal_iff inner.initial pis.initial).0 initial,
        (definition.accumulator_equal_iff inner.output pis.prev).0 output,
        ground arith,
      )

  -- The elements that a proof has folded, and that they lead to its output.
  abbrev Folded : CyclicPublicValues Ctx Element Accumulator Verifier → ℕ → Type 0
  Folded pis n =
      (xs : List Element) × (length xs ≡ n + 1)
      × (folds definition pis.ctx 0 pis.initial xs ≡ ok pis.output)

  module _ (data' : Verifier) (checks : ChecksCyclicProof) (sound : IsSound data') where
    verified-Folded :
        (n : ℕ) (proof : Proof)
        → let pis = plonky2.public_values proof in
          plonky2.verify data' proof ≡ true
          → pis.verifier_data ≡ data'
          → pis.index ≡ n
          → Folded pis n
    unfolding folds
    verified-Folded zero proof v d i =
        let pis = plonky2.public_values proof in
        let (inner_proof, e) = sound proof v in
        let (bound, step, valid, proved) = build_inner-Step pis inner_proof e in
        let first : definition.fold_step pis.ctx pis.element pis.initial 0 ≡ ok pis.output =
          rw i at step in
        (pis.element ∷ [], omega arith, rw first refl)
    verified-Folded (suc n) proof v d i =
        let pis = plonky2.public_values proof in
        let (inner_proof, e) = sound proof v in
        let (bound, step, valid, proved) = build_inner-Step pis inner_proof e in
        let inner = plonky2.public_values inner_proof in
        let later : (pis.index == 0) ≡ false = ground arith in
        let (verified, same) = checks inner_proof pis.verifier_data (rw later at proved) in
        let verified' : plonky2.verify data' inner_proof ≡ true = rw d at verified in
        let (ctx, initial, prev, index) = inner_valid-fields pis inner (or_false _ _ valid later) in
        let (before, e') = sound inner_proof verified' in
        let (bound', step', valid', proved') = build_inner-Step inner before e' in
        let (xs, l, folded) = verified-Folded n inner_proof verified' (same ∙ d) (ground arith) in
        let last : definition.fold_step pis.ctx pis.element pis.prev (0 + length xs)
            ≡ ok pis.output =
          ap (definition.fold_step pis.ctx pis.element pis.prev) (omega arith)
          ∙ (rw later at step) in
        (
          xs ++ pis.element ∷ [],
          omega (arith, length-append xs (pis.element ∷ [])),
          folds-append definition pis.ctx 0 pis.initial pis.output xs pis.element
              (rw (ctx, initial, prev) at folded) last,
        )

    -- The proof system is sound for the inner circuit, and checks a cyclic proof against the verifier
    -- data of the circuit it stands in. Then a proof that `fold` accepts, and that carries the
    -- verifier data it was verified against, gives the number of the last element and the fold of
    -- as many elements from the initial accumulator in the given context.
    pub fold_sound :
        (ctx : Ctx) (initial : Accumulator) (final_proof : Proof) (index : ℕ) (output : Accumulator)
        → let pis = plonky2.public_values final_proof in
          pis.verifier_data ≡ data'
          → fold definition plonky2 data' ctx initial final_proof ≡ ok (index, output)
          → (xs : List Element) × (length xs ≡ index + 1)
            × (folds definition ctx 0 initial xs ≡ ok output)
    unfolding fold
    fold_sound ctx initial final_proof index output d e =
        let pis = plonky2.public_values final_proof in
        let (v, e1) = ensure-eq-ok (plonky2.verify data' final_proof) _ e in
        let (c, e2) = ensure-eq-ok (definition.ctx_equal pis.ctx ctx) _ e1 in
        let (a, e3) = ensure-eq-ok (definition.accumulator_equal pis.initial initial) _ e2 in
        let same_ctx = (definition.ctx_equal_iff pis.ctx ctx).0 c in
        let same_initial = (definition.accumulator_equal_iff pis.initial initial).0 a in
        let i : pis.index ≡ index = cc e3 in
        let o : pis.output ≡ output = cc e3 in
        let (xs, l, folded) = verified-Folded index final_proof v d i in
        (xs, l, rw (same_ctx, same_initial, o) at folded)
