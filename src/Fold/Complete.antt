-- ===== src/Fold/Complete.antt =====
-- The loop of Fold/Generator.antt ends with a proof that `fold` accepts.
use succinctx.Prelude.{
  ℕ, zero, suc, ◌+◌, ◌^◌, ◌<◌, ◌≡◌, refl, ap, ◌∙◌, Bool, true, false, ◌||◌, Option, none, some,
  List, [], ◌∷◌, arith, ltb, lt→ltb, length, ok, panic,
}
use succinctx.Fold.Inner.{FoldDefinition, Plonky2, build_inner, fold}
use succinctx.Fold.Steps.{
  AcceptsCyclicProof, ctx_equal_refl, accumulator_equal_refl, next_values, build_inner-next_values,
}
use succinctx.Fold.Generator.{
  CycleInput, Prover, prove_cycle, previous_proof, previous_output, run_loop, run_once, unwrap,
  Runs, Proves, IsAt, values,
}

module _ {Ctx Element Accumulator Verifier Proof : Type 0}
    (definition : FoldDefinition Ctx Element Accumulator)
    (plonky2 : Plonky2 Ctx Element Accumulator Verifier Proof)
    (prover : Prover Ctx Element Accumulator Verifier Proof) (data' : Verifier) (ctx : Ctx)
    (initial : Accumulator) (next : ℕ → Accumulator → Option Element)
    (accepts : AcceptsCyclicProof definition plonky2)
    (proves : Proves definition plonky2 prover data' ctx initial next) where
  -- One turn of the loop: it ends, or it goes on with the next proof.
  run_loop_end :
      (fuel i : ℕ) (last_result : Option Proof)
      → next i (previous_output definition plonky2 prover data' ctx initial next last_result) ≡ none
      → run_loop definition plonky2 prover data' ctx initial next (suc fuel) i last_result
        ≡ unwrap definition plonky2 prover data' ctx initial next last_result
  unfolding run_loop
  run_loop_end fuel i last_result e = rw (run_loop, e) refl

  run_loop_turn :
      (fuel i : ℕ) (last_result : Option Proof) (x : Element) (proof : Proof)
      → let prev = previous_output definition plonky2 prover data' ctx initial next last_result in
        next i prev ≡ some x
        → prove_cycle definition plonky2 prover data' ctx initial next prev x i last_result
          ≡ ok proof
        → i + 1 < 2 ^ 32
        → run_loop definition plonky2 prover data' ctx initial next (suc fuel) i last_result
          ≡ run_loop definition plonky2 prover data' ctx initial next fuel (i + 1) (some proof)
  unfolding run_loop
  run_loop_turn fuel i last_result x proof e made bound =
      rw (run_loop, e, made, lt→ltb (i + 1) (2 ^ 32) bound) refl

  or_true : (b : Bool) → (b || true) ≡ true
  or_true true = refl
  or_true false = refl

  run_loop-Runs :
      (fuel i : ℕ) (proof : Proof) (acc out : Accumulator) (xs : List Element)
      → length xs < fuel
      → i + 1 + length xs < 2 ^ 32
      → IsAt definition plonky2 prover data' ctx initial next proof i acc
      → Runs definition plonky2 prover data' ctx initial next (i + 1) acc xs out
      → (final : Proof) × (run_loop definition plonky2 prover data' ctx initial next fuel
            (i + 1)
            (some proof)
          ≡ ok final)
        × IsAt definition plonky2 prover data' ctx initial next final (i + length xs) out
  unfolding next_values previous_output unwrap prove_cycle
  run_loop-Runs zero i proof acc out xs h b at runs = absurd (omega arith)
  run_loop-Runs (suc fuel) i proof acc out [] h b at runs =
      let pis = plonky2.public_values proof in
      let none_left : next (i + 1) pis.output ≡ none = ap (next (i + 1)) at.5 ∙ runs.0 in
      (
        proof,
        run_loop_end fuel (i + 1) (some proof) none_left,
        (at.0, at.1, at.2, at.3, at.4 ∙ omega arith, at.5 ∙ runs.1),
      )
  run_loop-Runs (suc fuel) i proof acc out (x ∷ xs) h b at runs =
      let pis = plonky2.public_values proof in
      let (acc', more) = runs.1 in
      let (step, rest) = more in
      let some_left : next (i + 1) pis.output ≡ some x = ap (next (i + 1)) at.5 ∙ runs.0 in
      let input : CycleInput Ctx Element Accumulator Verifier = record {
        ctx = ctx;
        element = x;
        prev = pis.output;
        initial = initial;
        index = i + 1;
        verifier_data = data';
      } in
      let same : next_values definition plonky2 pis x acc'
          ≡ values definition plonky2 prover data' ctx initial next input acc' =
        rw (at.1, at.2, at.3, at.4) refl in
      let step' : definition.fold_step pis.ctx x pis.output (pis.index + 1) ≡ ok acc' =
        rw (at.1, at.4, at.5) step in
      let holds =
        build_inner-next_values definition plonky2 accepts proof x acc'
          (ap (λ d. plonky2.verify d proof) at.3 ∙ at.0) (rw at.4 (omega arith)) step' in
      let (proof', made, verified, is) = proves input acc' proof (rw same at holds) in
      let at' : IsAt definition plonky2 prover data' ctx initial next proof' (i + 1) acc' =
        (verified, rw is refl, rw is refl, rw is refl, rw is refl, rw is refl) in
      let (final, e, at'') =
        run_loop-Runs fuel (i + 1) proof' acc' out xs (omega arith) (omega arith) at' rest in
      let shift : i + 1 + length xs ≡ i + suc (length xs) = omega arith in
      (
        final,
        run_loop_turn fuel (i + 1) (some proof) x proof' some_left made (omega arith) ∙ e,
        rw shift at at'',
      )

  -- The circuit of the first step takes any proof before it, if the dummy check does.
  build_inner_first :
      (x : Element) (output : Accumulator) (dummy : Proof)
      → (plonky2.public_values dummy).index ≡ 0
      → plonky2.conditionally_verify_cyclic_proof_or_dummy false dummy data' ≡ true
      → definition.fold_step ctx x initial 0 ≡ ok output
      → let input : CycleInput Ctx Element Accumulator Verifier = record {
        ctx = ctx;
        element = x;
        prev = initial;
        initial = initial;
        index = 0;
        verifier_data = data';
      } in
        build_inner definition plonky2
          (values definition plonky2 prover data' ctx initial next input output)
          dummy
        ≡ ok tt
  unfolding build_inner
  build_inner_first x output dummy zero_index skips step =
      let inner = plonky2.public_values dummy in
      let room : ltb (inner.index + 1) (2 ^ 36) ≡ true =
        lt→ltb (inner.index + 1) (2 ^ 36) (omega arith) in
      rw (step, accumulator_equal_refl definition plonky2 output, room, or_true _, skips) refl

  -- Without elements there is no proof to set.
  pub run_once_empty :
      (fuel : ℕ)
      → next 0 initial ≡ none
      → run_once definition plonky2 prover data' ctx initial next (suc fuel) ≡ panic
  unfolding run_once previous_output unwrap
  run_once_empty fuel e = run_loop_end fuel 0 none e

  -- The prover proves what holds, and the checks within the circuit accept a proof that verifies with
  -- the same verifier data, and the dummy, which has 0 as its number. If the definition gives a first element and the elements
  -- `xs`, fewer than 2 ^ 32, and its steps lead from the initial accumulator to `out`, then the loop
  -- ends, with fuel for one turn more than there are elements, and `fold` accepts its proof with the
  -- number of the last element and `out`.
  pub fold-run_once :
      (fuel : ℕ) (x : Element) (xs : List Element) (out : Accumulator)
      → (plonky2.public_values (prover.cyclic_base_proof data')).index ≡ 0
      → plonky2.conditionally_verify_cyclic_proof_or_dummy false
          (prover.cyclic_base_proof data')
          data'
        ≡ true
      → suc (length xs) < fuel
      → suc (length xs) < 2 ^ 32
      → Runs definition plonky2 prover data' ctx initial next 0 initial (x ∷ xs) out
      → (final_proof : Proof) × (run_once definition plonky2 prover data' ctx initial next fuel
          ≡ ok final_proof)
        × (fold definition plonky2 data' ctx initial final_proof ≡ ok (length xs, out))
  unfolding run_once fold previous_output prove_cycle previous_proof
  fold-run_once zero x xs out zero_index skips h b runs = absurd (omega arith)
  fold-run_once (suc fuel) x xs out zero_index skips h b runs =
      let (acc', more) = runs.1 in
      let (step, rest) = more in
      let dummy = prover.cyclic_base_proof data' in
      let (proof, made, verified, is) =
        proves _ acc' dummy (build_inner_first x acc' dummy zero_index skips step) in
      let at : IsAt definition plonky2 prover data' ctx initial next proof 0 acc' =
        (verified, rw is refl, rw is refl, rw is refl, rw is refl, rw is refl) in
      let (final, e, at') =
        run_loop-Runs fuel 0 proof acc' out xs (omega arith) (omega arith) at rest in
      (
        final,
        run_loop_turn fuel 0 none x proof runs.0 made (omega arith) ∙ e,
        rw
            (
              at'.0,
              at'.1,
              at'.2,
              at'.4,
              at'.5,
              ctx_equal_refl definition plonky2 ctx,
              accumulator_equal_refl definition plonky2 initial,
            )
            (ap (λ n. ok (n, out)) (omega arith)),
      )
