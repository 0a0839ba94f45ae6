-- ===== src/Fold/Tests.antt =====
-- A small proof system, sound and complete for the inner circuit of Fold/Inner.antt, and the
-- theorems of Fold at it.
use succinctx.Prelude.{
  ℕ, zero, suc, ◌+◌, ◌≡◌, refl, sym, ap, ◌∙◌, inl, inr, Bool, true, false, not, ◌&&◌, ◌||◌, Option,
  none, some, List, [], ◌∷◌, arith, ◌==◌, if◌then◌else◌, ==_refl, ==_iff, Bool-cases, length,
  Outcome, ok, panic, stuck,
}
use succinctx.Fold.Inner.{
  CyclicPublicValues, FoldDefinition, Plonky2, build_inner, inner_valid, fold, folds,
}
use succinctx.Fold.Sound.{ChecksCyclicProof, IsSound, build_inner-Step, fold_sound}
use succinctx.Fold.Steps.{AcceptsCyclicProof, IsComplete}
use succinctx.Fold.Forged.{fold_forged}
use succinctx.Fold.Generator.{CycleInput, Prover, run_once, values, Proves}
use succinctx.Fold.Complete.{fold-run_once}

abbrev Pis : Type 0
Pis = CyclicPublicValues ℕ ℕ ℕ ℕ

-- A step adds its element.
abbrev sum_definition : FoldDefinition ℕ ℕ ℕ
sum_definition = record {
  ctx_equal = λ a b. a == b;
  accumulator_equal = λ a b. a == b;
  ctx_equal_iff = ==_iff;
  accumulator_equal_iff = ==_iff;
  fold_step = λ ctx x acc i. ok (acc + x);
}

-- A proof for the inner circuit, whose verifier data are 0, has the proof before it. The circuit with
-- the verifier data 1 has no constraints.
data ToyProof : Type 0 where
  dummy : ToyProof
  free : Pis → ToyProof
  inner : Pis → ToyProof → ToyProof

abbrev toy_values : ToyProof → Pis
toy_values dummy = record {
  ctx = 0;
  element = 0;
  prev = 0;
  initial = 0;
  index = 0;
  output = 0;
  verifier_data = 0;
}
toy_values (free pis) = pis
toy_values (inner pis before) = pis

abbrev toy_check : Bool → Bool → ToyProof → ℕ → Bool
toy_check verified condition proof data' =
    let pis = toy_values proof in not condition || (verified && pis.verifier_data == data')

abbrev toy_with : Bool → Plonky2 ℕ ℕ ℕ ℕ ToyProof
toy_with verified = record {
  public_values = toy_values;
  verify = λ data' proof. verified;
  conditionally_verify_cyclic_proof_or_dummy = toy_check verified;
}

abbrev is_ok : Outcome (Unit {0}) → Bool
is_ok (ok u) = true
is_ok panic = false
is_ok stuck = false

toy_verify : ℕ → ToyProof → Bool
toy_verify data' dummy = false
toy_verify data' (free pis) = data' == 1
toy_verify data' (inner pis before) =
    let verified = toy_verify pis.verifier_data before in
    data' == 0 && is_ok (build_inner sum_definition (toy_with verified) pis before)

abbrev toy : Plonky2 ℕ ℕ ℕ ℕ ToyProof
toy = record {
  public_values = toy_values;
  verify = toy_verify;
  conditionally_verify_cyclic_proof_or_dummy =
      λ condition proof data'. toy_check (toy_verify data' proof) condition proof data';
}

is_ok-true : (o : Outcome (Unit {0})) → is_ok o ≡ true → o ≡ ok tt
is_ok-true (ok u) e = refl
is_ok-true panic e = cc
is_ok-true stuck e = cc

toy_inner :
    (pis : Pis) (before : ToyProof)
    → build_inner sum_definition (toy_with (toy_verify pis.verifier_data before)) pis before
      ≡ build_inner sum_definition toy pis before
unfolding build_inner inner_valid
toy_inner pis before = refl

toy-IsSound : IsSound sum_definition toy 0
unfolding toy_verify
toy-IsSound dummy v = absurd (cc v)
toy-IsSound (free pis) v = absurd (cc v)
toy-IsSound (inner pis before) v = (before, sym (toy_inner pis before) ∙ is_ok-true _ v)

toy_verifies :
    (pis : Pis) (before : ToyProof)
    → build_inner sum_definition toy pis before ≡ ok tt
    → toy_verify 0 (inner pis before) ≡ true
unfolding toy_verify
toy_verifies pis before e = rw (toy_inner pis before, e) refl

toy-IsComplete : IsComplete sum_definition toy 0
toy-IsComplete pis before e = (inner pis before, toy_verifies pis before e, refl)

toy_checks : ChecksCyclicProof sum_definition toy
toy_checks proof data' e =
    let pis = toy_values proof in
    elim (Bool-cases (toy_verify data' proof)) [
      | inl v ↦ (v, (==_iff pis.verifier_data data').0 (rw v at e))
      | inr v ↦ absurd (cc (rw v at e))
    ]

toy_accepts : AcceptsCyclicProof sum_definition toy
toy_accepts proof data' v d = rw (v, d) (==_refl data')

-- The first public inputs: the element 3 added to 10, in the context 5.
abbrev first_pis : Pis
first_pis = record {
  ctx = 5;
  element = 3;
  prev = 0;
  initial = 10;
  index = 0;
  output = 13;
  verifier_data = 0;
}

abbrev second_pis : Pis
second_pis = record first_pis { element = 4; prev = 13; index = 1; output = 17 }

abbrev second_proof : ToyProof
second_proof = inner second_pis (inner first_pis dummy)

fold_runs : fold sum_definition toy 0 5 10 second_proof ≡ ok (1, 17)
unfolding fold toy_verify build_inner inner_valid
fold_runs = refl

fold_sound_example : (xs : List ℕ) × (length xs ≡ 1 + 1) × (folds sum_definition 5 0 10 xs ≡ ok 17)
fold_sound_example =
    fold_sound sum_definition toy 0 toy_checks toy-IsSound 5 10 second_proof 1 17 refl fold_runs

-- It claims that 1000 is the fold of one element.
abbrev forged_pis : Pis
forged_pis = record first_pis { output = 1000; verifier_data = 1 }

free_verifies : toy_verify 1 (free forged_pis) ≡ true
unfolding toy_verify
free_verifies = refl

fold_forged_example :
    (final_proof : ToyProof) × (fold sum_definition toy 0 5 10 final_proof ≡ ok (1, 1004))
fold_forged_example =
    fold_forged sum_definition toy 0 toy_accepts toy-IsComplete (free forged_pis) 4 1004
      free_verifies refl refl

abbrev toy_output : CycleInput ℕ ℕ ℕ ℕ → ℕ
toy_output input = (if input.index == 0 then input.initial else input.prev) + input.element

abbrev next_element : ℕ → ℕ → Option ℕ
next_element zero acc = some 3
next_element (suc zero) acc = some 4
next_element (suc (suc i)) acc = none

toy_prove : CycleInput ℕ ℕ ℕ ℕ → ToyProof → Outcome ToyProof
toy_prove input before = ok (
    inner
      (record {
        ctx = input.ctx;
        element = input.element;
        prev = input.prev;
        initial = input.initial;
        index = input.index;
        output = toy_output input;
        verifier_data = input.verifier_data;
      })
      before)

abbrev toy_prover : Prover ℕ ℕ ℕ ℕ ToyProof
toy_prover = record { prove = toy_prove; cyclic_base_proof = λ data'. dummy }

toy_proves : Proves sum_definition toy toy_prover 0 5 10 next_element
unfolding toy_prove
toy_proves input output before e =
    let pis = values sum_definition toy toy_prover 0 5 10 next_element input output in
    let step = build_inner-Step sum_definition toy pis before e in
    let same : toy_output input ≡ output = cc step.1 in
    (
      inner pis before,
      ap (λ o. ok (inner (values sum_definition toy toy_prover 0 5 10 next_element input o) before))
          same,
      toy_verifies pis before e,
      refl,
    )

fold-run_once_example :
    (final_proof : ToyProof) × (run_once sum_definition toy toy_prover 0 5 10 next_element 3
      ≡ ok final_proof)
    × (fold sum_definition toy 0 5 10 final_proof ≡ ok (1, 17))
fold-run_once_example =
    fold-run_once sum_definition toy toy_prover 0 5 10 next_element toy_accepts toy_proves 3 3
      (4 ∷ []) 17 refl refl (omega arith) (omega arith)
      (refl, (13, (refl, (refl, (17, (refl, (refl, refl)))))))
