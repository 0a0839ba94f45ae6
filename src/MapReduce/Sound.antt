-- ===== src/MapReduce/Sound.antt =====
-- What a proof for a circuit of MapReduce/Circuits.antt says.
use mathlib.Core.Path.{subst}
use native.Mathlib.Nat.{two-pow-succ}
use succinctx.Prelude.{
  ℕ, zero, suc, ◌+◌, ◌^◌, ◌≡◌, refl, sym, ap, ◌∙◌, ◌↔◌, Bool, true, List, [], ◌∷◌, ◌++◌, map, arith,
  length, length-append, length-map, Outcome, ok, ◌>>=◌, >>=-eq-ok, ensure-eq-ok,
}
use mathlib.Core.List.{map-append}
use succinctx.Vars.Circuit.{IsLawful}
use succinctx.Vars.Layout.{All}
use succinctx.MapReduce.Commitment.{leaf_hash, poseidon_hash_pair}
use succinctx.MapReduce.Circuits.{
  MapReduceOutput, CircuitBuild, map_circuit, reduce_circuit, MapReduce, build_map, build_reduce,
  build_layers, final_circuit,
}
use succinctx.MapReduce.Layers.{tree, tree-append}
use succinctx.MapReduce.Binding.{join_hashes}
use succinctx.MapReduce.Groups.{IsGroup}

-- One fallible call for each member.
unfoldable pub map_all {ℓ κ} :
    {A : Type ℓ} {B : Type κ} → (A → Outcome B) → List A → Outcome (List B)
map_all f [] = ok []
map_all f (x ∷ xs) = do y ← f x; ys ← map_all f xs; ok (y ∷ ys)

map_all-append :
    {A B : Type 0} (f : A → Outcome B) (xs ys : List A) (us vs : List B)
    → map_all f xs ≡ ok us
    → map_all f ys ≡ ok vs
    → map_all f (xs ++ ys) ≡ ok (us ++ vs)
unfolding map_all
map_all-append f [] ys us vs e e' = let none_left : [] ≡ us = cc e in rw (← none_left) e'
map_all-append f (x ∷ xs) ys us vs e e' =
    let (y, p, e1) = >>=-eq-ok (f x) _ e in
    let (rest, q, e2) = >>=-eq-ok (map_all f xs) _ e1 in
    let whole : y ∷ rest ≡ us = cc e2 in rw (p, map_all-append f xs ys rest vs q e', ← whole) refl

pub length-map_all :
    {A B : Type 0} (f : A → Outcome B) (xs : List A) {ys : List B}
    → map_all f xs ≡ ok ys
    → length ys ≡ length xs
unfolding map_all
length-map_all f [] {ys} e = let none_left : [] ≡ ys = cc e in rw (← none_left) refl
length-map_all f (x ∷ xs) {ys} e =
    let (y, p, e1) = >>=-eq-ok (f x) _ e in
    let (rest, q, e2) = >>=-eq-ok (map_all f xs) _ e1 in
    let whole : y ∷ rest ≡ ys = cc e2 in rw (← whole) (ap suc (length-map_all f xs q))

-- The circuit over `d` layers.
unfoldable pub circuits : ℕ → CircuitBuild
circuits zero = map_circuit
circuits (suc d) = reduce_circuit (circuits d)

-- What the checks of the outer circuit rely on: lawful inputs, and equality tests that are right.
pub record IsLawfulProgram {F : Type 0} (program : MapReduce F) : Type 1 where
  pub input_lawful : IsLawful program.input
  pub ctx_equal_iff : (a b : program.Ctx) → (program.ctx_equal a b ≡ true) ↔ (a ≡ b)
  pub hash_equal_iff : (a b : List F) → (program.hash_equal a b ≡ true) ↔ (a ≡ b)

module _ {F : Type 0} (hash : List F → List F) (program : MapReduce F) where
  open program use {Ctx, Output, input, batch}

  -- The specification: each group is mapped, and the results are reduced over a full tree.
  unfoldable pub map_reduce : Ctx → ℕ → List (List input.Value) → Outcome Output
  unfolding map_all
  map_reduce ctx d groups = map_all (program.map_fn ctx) groups >>= tree (program.reduce_fn ctx) d

  module _ (lawful : IsLawfulProgram program) (Proof : Type 0)
      (verify_proof : CircuitBuild → Proof → Bool)
      (read_end_from_pis : Proof → MapReduceOutput F Ctx Output) where
    open lawful use {input_lawful}

    -- A proof that verifies has inputs, or proofs below it, with which the constraints hold.
    abbrev pub IsSound : Type 0
    IsSound =
        ((proof : Proof)
          → verify_proof map_circuit proof ≡ true
          → (ctx : Ctx) × (inputs : List input.Value) × IsGroup input_lawful.IsValue batch inputs
            × (build_map hash program ctx inputs ≡ ok (read_end_from_pis proof)))
        × ((child : CircuitBuild) (proof : Proof)
            → verify_proof (reduce_circuit child) proof ≡ true
            → (left : Proof) × (right : Proof) × (build_reduce hash program Proof verify_proof
                  read_end_from_pis child left right
                ≡ ok (read_end_from_pis proof)))

    -- The groups that stand behind what a proof says.
    abbrev pub Stands : ℕ → MapReduceOutput F Ctx Output → Type 0
    Stands d pis =
        (groups : List (List input.Value)) × (outs : List Output) × (length groups ≡ 2 ^ d)
        × All (IsGroup input_lawful.IsValue batch) groups
        × (map_all (program.map_fn pis.ctx) groups ≡ ok outs)
        × (tree (program.reduce_fn pis.ctx) d outs ≡ ok pis.output)
        × (tree (join_hashes hash) d (map (leaf_hash hash input) groups) ≡ ok pis.acc)

    All-append :
        {A : Type 0} (P : A → Type 0) (xs ys : List A) → All P xs → All P ys → All P (xs ++ ys)
    All-append P [] ys h h' = h'
    All-append P (x ∷ xs) ys h h' = (h.0, All-append P xs ys h.1 h')

    module _ (sound : IsSound) where
      pub verified-Stands :
          (d : ℕ) (proof : Proof)
          → verify_proof (circuits d) proof ≡ true
          → Stands d (read_end_from_pis proof)
      unfolding circuits build_map build_reduce map_all tree
      verified-Stands zero proof v =
          let (ctx, inputs, group, e) = sound.0 proof v in
          let (out, p, e1) = >>=-eq-ok (program.map_fn ctx inputs) _ e in
          let claim : MapReduceOutput F Ctx Output = record {
            ctx = ctx;
            output = out;
            acc = leaf_hash hash input inputs;
          } in
          let made : claim ≡ read_end_from_pis proof = cc e1 in
          let stands : Stands 0 claim =
            (inputs ∷ [], out ∷ [], refl, (group, tt), rw p refl, refl, refl) in
          subst (λ o. Stands 0 o) made stands
      verified-Stands (suc d) proof v =
          let (left, right, e) = sound.1 (circuits d) proof v in
          let pl = read_end_from_pis left in
          let pr = read_end_from_pis right in
          let (vl, e1) = ensure-eq-ok (verify_proof (circuits d) left) _ e in
          let (vr, e2) = ensure-eq-ok (verify_proof (circuits d) right) _ e1 in
          let (same, e3) = ensure-eq-ok (program.ctx_equal pl.ctx pr.ctx) _ e2 in
          let (out, p, e4) = >>=-eq-ok (program.reduce_fn pl.ctx pl.output pr.output) _ e3 in
          let (gs, os, n, g, m, t, r) = verified-Stands d left vl in
          let (gs', os', n', g', m', t', r') = verified-Stands d right vr in
          let claim : MapReduceOutput F Ctx Output = record {
            ctx = pl.ctx;
            output = out;
            acc = poseidon_hash_pair hash pl.acc pr.acc;
          } in
          let made : claim ≡ read_end_from_pis proof = cc e4 in
          let ctx = sym ((lawful.ctx_equal_iff pl.ctx pr.ctx).0 same) in
          let mapped = map_all-append (program.map_fn pl.ctx) gs gs' os os' m (rw ctx at m') in
          let size : length os ≡ 2 ^ d = length-map_all (program.map_fn pl.ctx) gs m ∙ n in
          let reduced : tree (program.reduce_fn pl.ctx) (suc d) (os ++ os') ≡ ok out =
            tree-append (program.reduce_fn pl.ctx) d os os' size t (rw ctx at t') p in
          let leafs = map (leaf_hash hash input) gs in
          let root : tree (join_hashes hash) (suc d) (map (leaf_hash hash input) (gs ++ gs'))
              ≡ ok (poseidon_hash_pair hash pl.acc pr.acc) =
            ap (tree (join_hashes hash) (suc d)) (map-append (leaf_hash hash input) gs gs')
            ∙ tree-append (join_hashes hash) d leafs (map (leaf_hash hash input) gs')
                (length-map gs (leaf_hash hash input) ∙ n) r r' refl in
          let stands : Stands (suc d) claim = (
            gs ++ gs',
            os ++ os',
            omega (arith, length-append gs gs', two-pow-succ d),
            All-append (IsGroup input_lawful.IsValue batch) gs gs' g g',
            mapped,
            reduced,
            root,
          ) in
          subst (λ o. Stands (suc d) o) made stands

    pub final_circuit-build_layers :
        (d k : ℕ)
        → final_circuit hash program Proof verify_proof read_end_from_pis
            (build_layers hash program Proof verify_proof read_end_from_pis (suc d) (circuits k))
          ≡ ok (circuits (suc d + k))
    unfolding final_circuit build_layers circuits
    final_circuit-build_layers zero k =
        let same : suc k ≡ suc zero + k = omega arith in ap (λ n. ok (circuits n)) same
    final_circuit-build_layers (suc d) k =
        let same : suc d + suc k ≡ suc (suc d) + k = omega arith in
        final_circuit-build_layers d (suc k) ∙ ap (λ n. ok (circuits n)) same

    pub final_circuit-circuits :
        (d : ℕ) (circuit : CircuitBuild)
        → final_circuit hash program Proof verify_proof read_end_from_pis
            (build_layers hash program Proof verify_proof read_end_from_pis d map_circuit)
          ≡ ok circuit
        → circuit ≡ circuits d
    unfolding final_circuit build_layers circuits
    final_circuit-circuits zero circuit e = absurd (cc e)
    final_circuit-circuits (suc d) circuit e =
        let found : circuit ≡ circuits (suc d + 0) = cc (e, final_circuit-build_layers d 0) in
        let same : suc d + 0 ≡ suc d = omega arith in found ∙ ap circuits same
