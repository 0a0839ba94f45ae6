-- ===== src/MapReduce/Complete.antt =====
-- The proofs that MapReduce/Generator.antt makes, layer by layer.
use succinctx.Prelude.{
  index, ℕ, zero, suc, ◌+◌, ◌*◌, ◌^◌, ◌≡◌, refl, sym, ap, ◌∙◌, Bool, true, List, [], ◌∷◌, map,
  arith, length, take, drop, take-map, Outcome, ok, ◌>>=◌, ◌>>◌, ensure, >>=-eq-ok,
}
use succinctx.Vars.Layout.{All}
use succinctx.MapReduce.Commitment.{leaf_hash, poseidon_hash_pair}
use succinctx.MapReduce.Circuits.{MapReduceOutput, CircuitBuild, MapReduce, build_map, build_reduce}
use succinctx.MapReduce.Layers.{tree, pairs}
use succinctx.MapReduce.Binding.{join_hashes}
use succinctx.MapReduce.Generator.{reduce_inputs_loop}
use succinctx.MapReduce.Sound.{map_all, IsLawfulProgram}

abbrev pub adjacent : {A : Type 0} → List A → List (A × A)
adjacent [] = []
adjacent (x ∷ []) = []
adjacent (x ∷ y ∷ xs) = (x, y) ∷ adjacent xs

index-drop : {A : Type 0} (k : ℕ) (xs ys : List A) (x : A) → drop k xs ≡ x ∷ ys → index xs k ≡ ok x
index-drop k [] ys x e = absurd (empty_drop k e)
  where
    empty_drop : (k : ℕ) → drop k [] ≡ x ∷ ys → ⊥
    empty_drop zero e = cc e
    empty_drop (suc k) e = cc e
index-drop zero (z ∷ xs) ys x e = cc e
index-drop (suc k) (z ∷ xs) ys x e = index-drop k xs ys x e

drop_next :
    {A : Type 0} (k : ℕ) (xs ys : List A) (x : A) → drop k xs ≡ x ∷ ys → drop (k + 1) xs ≡ ys
drop_next zero [] ys x e = absurd (cc e)
drop_next (suc k) [] ys x e = absurd (cc e)
drop_next zero (z ∷ xs) ys x e = cc e
drop_next (suc k) (z ∷ xs) ys x e =
    let next : suc k + 1 ≡ suc (k + 1) = omega arith in
    ap (λ n. drop n (z ∷ xs)) next ∙ drop_next k xs ys x e

pub reduce_inputs_loop-adjacent :
    {A : Type 0} (left j : ℕ) (proofs rest : List A)
    → drop (j * 2) proofs ≡ rest
    → length rest ≡ left + left
    → reduce_inputs_loop left j proofs ≡ ok (adjacent rest)
unfolding reduce_inputs_loop
reduce_inputs_loop-adjacent zero j proofs [] e l = refl
reduce_inputs_loop-adjacent zero j proofs (x ∷ rest) e l = absurd (omega arith)
reduce_inputs_loop-adjacent (suc left) j proofs [] e l = absurd (omega arith)
reduce_inputs_loop-adjacent (suc left) j proofs (x ∷ []) e l = absurd (omega arith)
reduce_inputs_loop-adjacent (suc left) j proofs (x ∷ y ∷ rest) e l =
    let second = drop_next (j * 2) proofs (y ∷ rest) x e in
    let two : (j + 1) * 2 ≡ j * 2 + 1 + 1 = omega arith in
    let third = ap (λ n. drop n proofs) two ∙ drop_next (j * 2 + 1) proofs rest y second in
    rw
      (
        index-drop (j * 2) proofs (y ∷ rest) x e,
        index-drop (j * 2 + 1) proofs rest y second,
        reduce_inputs_loop-adjacent left (j + 1) proofs rest third (omega arith),
      )
      refl

module _ {F : Type 0} (hash : List F → List F) (program : MapReduce F)
    (lawful : IsLawfulProgram program) where
  open program use {Ctx, Output, input, batch}

  -- What a reduce circuit makes of what two proofs say.
  abbrev pub join_outputs :
      MapReduceOutput F Ctx Output
      → MapReduceOutput F Ctx Output
      → Outcome (MapReduceOutput F Ctx Output)
  join_outputs left right = do
    ensure (program.ctx_equal left.ctx right.ctx)
    output ← program.reduce_fn left.ctx left.output right.output
    ok (record {
      ctx = left.ctx;
      output = output;
      acc = poseidon_hash_pair hash left.acc right.acc;
    })

  abbrev pub claims :
      Ctx → List (List input.Value) → List Output → List (MapReduceOutput F Ctx Output)
  claims ctx [] outs = []
  claims ctx (g ∷ groups) [] = []
  claims ctx (g ∷ groups) (o ∷ outs) =
      record { ctx = ctx; output = o; acc = leaf_hash hash input g } ∷ claims ctx groups outs

  take-claims :
      (n : ℕ) (ctx : Ctx) (groups : List (List input.Value)) (outs : List Output)
      → take n (claims ctx groups outs) ≡ claims ctx (take n groups) (take n outs)
  take-claims zero ctx groups outs = refl
  take-claims (suc n) ctx [] outs = refl
  take-claims (suc n) ctx (g ∷ groups) [] = refl
  take-claims (suc n) ctx (g ∷ groups) (o ∷ outs) =
      ap (λ l. record { ctx = ctx; output = o; acc = leaf_hash hash input g } ∷ l)
        (take-claims n ctx groups outs)

  claims_empty : (ctx : Ctx) (groups : List (List input.Value)) → claims ctx groups [] ≡ []
  claims_empty ctx [] = refl
  claims_empty ctx (g ∷ groups) = refl

  drop-claims :
      (n : ℕ) (ctx : Ctx) (groups : List (List input.Value)) (outs : List Output)
      → drop n (claims ctx groups outs) ≡ claims ctx (drop n groups) (drop n outs)
  drop-claims zero ctx groups outs = refl
  drop-claims (suc n) ctx [] outs = refl
  drop-claims (suc n) ctx (g ∷ groups) [] = sym (claims_empty ctx (drop n groups))
  drop-claims (suc n) ctx (g ∷ groups) (o ∷ outs) = drop-claims n ctx groups outs

  pub length-claims :
      (ctx : Ctx) (groups : List (List input.Value)) (outs : List Output)
      → length outs ≡ length groups
      → length (claims ctx groups outs) ≡ length groups
  length-claims ctx [] outs l = refl
  length-claims ctx (g ∷ groups) [] l = absurd (omega arith)
  length-claims ctx (g ∷ groups) (o ∷ outs) l = ap suc (length-claims ctx groups outs (omega arith))

  -- The trees of the results and of the hashes, together.
  pub tree-claims :
      (d : ℕ) (ctx : Ctx) (groups : List (List input.Value)) (outs : List Output) {o : Output}
      {root : List F}
      → tree (program.reduce_fn ctx) d outs ≡ ok o
      → tree (join_hashes hash) d (map (leaf_hash hash input) groups) ≡ ok root
      → tree join_outputs d (claims ctx groups outs)
        ≡ ok (record { ctx = ctx; output = o; acc = root })
  unfolding tree
  tree-claims zero ctx [] outs e r = absurd (cc r)
  tree-claims zero ctx (g ∷ h ∷ groups) outs e r = absurd (cc r)
  tree-claims zero ctx (g ∷ []) [] e r = absurd (cc e)
  tree-claims zero ctx (g ∷ []) (x ∷ y ∷ outs) e r = absurd (cc e)
  tree-claims zero ctx (g ∷ []) (x ∷ []) {o} {root} e r =
      let same : x ≡ o = cc e in
      let same_root : leaf_hash hash input g ≡ root = cc r in rw (same, same_root) refl
  tree-claims (suc d) ctx groups outs {o} {root} e r =
      let n = 2 ^ d in
      let leafs = map (leaf_hash hash input) groups in
      let (a, p, e1) = >>=-eq-ok (tree (program.reduce_fn ctx) d (take n outs)) _ e in
      let (b, q, e2) = >>=-eq-ok (tree (program.reduce_fn ctx) d (drop n outs)) _ e1 in
      let (u, s, r1) = >>=-eq-ok (tree (join_hashes hash) d (take n leafs)) _ r in
      let (v, t, r2) = >>=-eq-ok (tree (join_hashes hash) d (drop n leafs)) _ r1 in
      let same : poseidon_hash_pair hash u v ≡ root = cc r2 in
      let front =
        tree-claims d ctx (take n groups) (take n outs) p
          (ap (tree (join_hashes hash) d) (sym (take-map n (leaf_hash hash input) groups)) ∙ s) in
      let back =
        tree-claims d ctx (drop n groups) (drop n outs) q
          (ap (tree (join_hashes hash) d) (sym (drop-map n groups)) ∙ t) in
      let here = (lawful.ctx_equal_iff ctx ctx).1 refl in
      rw (take-claims n ctx groups outs, front, drop-claims n ctx groups outs, back, here, e2, same)
        refl
    where
      drop-map :
          (n : ℕ) (groups : List (List input.Value))
          → drop n (map (leaf_hash hash input) groups) ≡ map (leaf_hash hash input) (drop n groups)
      drop-map zero groups = refl
      drop-map (suc n) [] = refl
      drop-map (suc n) (g ∷ groups) = drop-map n groups

  pub map_all-claims :
      (ctx : Ctx) (groups : List (List input.Value)) (outs : List Output)
      → map_all (program.map_fn ctx) groups ≡ ok outs
      → map_all
          (λ (p : Ctx × List input.Value). build_map hash program p.0 p.1)
          (map (λ g. (ctx, g)) groups)
        ≡ ok (claims ctx groups outs)
  unfolding map_all build_map
  map_all-claims ctx [] outs e = refl
  map_all-claims ctx (g ∷ groups) outs e =
      let (o, p, e1) = >>=-eq-ok (program.map_fn ctx g) _ e in
      let (rest, q, e2) = >>=-eq-ok (map_all (program.map_fn ctx) groups) _ e1 in
      let whole : o ∷ rest ≡ outs = cc e2 in rw (p, map_all-claims ctx groups rest q, ← whole) refl

  module _ (Proof : Type 0) (verify_proof : CircuitBuild → Proof → Bool)
      (read_end_from_pis : Proof → MapReduceOutput F Ctx Output) where
    -- A proof that verifies for a circuit.
    abbrev pub Verifies : CircuitBuild → Proof → Type 0
    Verifies circuit proof = verify_proof circuit proof ≡ true

    pub build_reduces :
        (child : CircuitBuild) (proofs : List Proof) (ws : List (MapReduceOutput F Ctx Output))
        → All (Verifies child) proofs
        → pairs join_outputs (map read_end_from_pis proofs) ≡ ok ws
        → map_all
            (λ (p : Proof × Proof).
              build_reduce hash program Proof verify_proof read_end_from_pis child p.0 p.1)
            (adjacent proofs)
          ≡ ok ws
    unfolding pairs map_all build_reduce
    build_reduces child [] ws h e = e
    build_reduces child (x ∷ []) ws h e = e
    build_reduces child (x ∷ y ∷ proofs) ws h e =
        let l = read_end_from_pis x in
        let r = read_end_from_pis y in
        let (w, p, e1) = >>=-eq-ok (join_outputs l r) _ e in
        let (rest, q, e2) = >>=-eq-ok (pairs join_outputs (map read_end_from_pis proofs)) _ e1 in
        let whole : w ∷ rest ≡ ws = cc e2 in
        rw (h.0, h.1.0, p, build_reduces child proofs rest h.1.1 q, ← whole) refl
