-- ===== src/MapReduce/Binding.antt =====
-- The root of MapReduce/Commitment.antt as a tree, and what it binds to.
use native.Mathlib.Nat.{two-pow-succ, one-le-pow}
use succinctx.Prelude.{
  ℕ, zero, suc, ◌+◌, ◌^◌, ◌≤◌, ◌≡◌, refl, sym, ap, ap₂, ◌∙◌, ◌≢◌, ◌⊎◌, inl, inr, List, [], ◌∷◌,
  ◌++◌, arith, length, length-append, take, drop, take-append-drop, length-take, length-drop,
  Outcome, ok, >>=-eq-ok,
}
use succinctx.Stream.At.{take-append, drop-append}
use succinctx.Vars.Layout.{All}
use succinctx.MapReduce.Commitment.{poseidon_hash_pair, hash_layer, layers_loop}
use succinctx.MapReduce.Layers.{tree, pairs, pairs-tree}

-- Two inputs of one length on which the hash function agrees. plonky2's hash does not pad its input,
-- so that inputs of different lengths are not kept apart.
abbrev pub Collision : {F : Type 0} → (List F → List F) → Type 0
Collision {F} hash =
    (x : List F) × (y : List F) × (length x ≡ length y) × (x ≢ y) × (hash x ≡ hash y)

module _ {F : Type 0} (hash : List F → List F) where
  abbrev pub join_hashes : List F → List F → Outcome (List F)
  join_hashes left right = ok (poseidon_hash_pair hash left right)

  hash_layer-pairs : (xs : List (List F)) → pairs join_hashes xs ≡ ok (hash_layer hash xs)
  unfolding pairs hash_layer
  hash_layer-pairs [] = refl
  hash_layer-pairs (x ∷ []) = refl
  hash_layer-pairs (x ∷ y ∷ xs) = rw (hash_layer-pairs xs) refl

  length-hash_layer :
      (n : ℕ) (xs : List (List F)) → length xs ≡ n + n → length (hash_layer hash xs) ≡ n
  unfolding hash_layer
  length-hash_layer zero [] l = refl
  length-hash_layer zero (x ∷ xs) l = absurd (omega arith)
  length-hash_layer (suc n) [] l = absurd (omega arith)
  length-hash_layer (suc n) (x ∷ []) l = absurd (omega arith)
  length-hash_layer (suc n) (x ∷ y ∷ xs) l = ap suc (length-hash_layer n xs (omega arith))

  -- The loop ends on a full layer, with the root of the tree.
  pub layers_loop-tree :
      (fuel d : ℕ) (xs : List (List F))
      → d ≤ fuel
      → length xs ≡ 2 ^ d
      → (root : List F) × (layers_loop hash fuel xs ≡ ok root) × (tree join_hashes d xs ≡ ok root)
  unfolding layers_loop tree
  layers_loop-tree fuel zero [] h l = absurd (omega arith)
  layers_loop-tree fuel zero (x ∷ []) h l = (x, refl, refl)
  layers_loop-tree fuel zero (x ∷ y ∷ xs) h l = absurd (omega arith)
  layers_loop-tree zero (suc d) xs h l = absurd (omega arith)
  layers_loop-tree (suc fuel) (suc d) [] h l =
      absurd (omega (arith, two-pow-succ d, one-le-pow d 2))
  layers_loop-tree (suc fuel) (suc d) (x ∷ []) h l =
      absurd (omega (arith, two-pow-succ d, one-le-pow d 2))
  layers_loop-tree (suc fuel) (suc d) (x ∷ y ∷ xs) h l =
      let leafs = x ∷ y ∷ xs in
      let n = length-hash_layer (2 ^ d) leafs (omega (arith, two-pow-succ d)) in
      let (root, e, t) = layers_loop-tree fuel d (hash_layer hash leafs) (omega arith) n in
      (root, e, pairs-tree join_hashes d leafs (hash_layer hash leafs) l (hash_layer-pairs leafs) t)

  -- Hashes have four elements.
  abbrev pub IsHash : List F → Type 0
  IsHash x = length x ≡ 4

  all_take : (n : ℕ) (xs : List (List F)) → All IsHash xs → All IsHash (take n xs)
  all_take zero xs h = tt
  all_take (suc n) [] h = tt
  all_take (suc n) (x ∷ xs) h = (h.0, all_take n xs h.1)

  all_drop : (n : ℕ) (xs : List (List F)) → All IsHash xs → All IsHash (drop n xs)
  all_drop zero xs h = h
  all_drop (suc n) [] h = tt
  all_drop (suc n) (x ∷ xs) h = all_drop n xs h.1

  module _ (discrete : Discrete (List F)) (length-hash : (xs : List F) → length (hash xs) ≡ 4) where
    pub hash_binds :
        (x y : List F) → length x ≡ length y → hash x ≡ hash y → (x ≡ y) ⊎ Collision hash
    hash_binds x y l e = elim (discrete x y) [ yes p ↦ inl p | no p ↦ inr (x, y, l, p, e) ]

    pair_binds :
        (a b a' b' : List F)
        → IsHash a
        → IsHash b
        → IsHash a'
        → IsHash b'
        → poseidon_hash_pair hash a b ≡ poseidon_hash_pair hash a' b'
        → ((a ≡ a') × (b ≡ b')) ⊎ Collision hash
    unfolding poseidon_hash_pair
    pair_binds a b a' b' l m l' m' e = elim (hash_binds (a ++ b) (a' ++ b') size e) [
      | inr c ↦ inr c
      | inl same ↦
          let fronts : take 4 (a ++ b) ≡ take 4 (a' ++ b') = ap (take 4) same in
          let backs : drop 4 (a ++ b) ≡ drop 4 (a' ++ b') = ap (drop 4) same in
          inl
            (sym (front a b l) ∙ fronts ∙ front a' b' l', sym (back a b l) ∙ backs ∙ back a' b' l')
    ]
      where
        size : length (a ++ b) ≡ length (a' ++ b')
        size = omega (arith, length-append a b, length-append a' b', l, m, l', m')

        front : (xs ys : List F) → length xs ≡ 4 → take 4 (xs ++ ys) ≡ xs
        front xs ys h = ap (λ n. take n (xs ++ ys)) (sym h) ∙ take-append xs ys

        back : (xs ys : List F) → length xs ≡ 4 → drop 4 (xs ++ ys) ≡ ys
        back xs ys h = ap (λ n. drop n (xs ++ ys)) (sym h) ∙ drop-append xs ys

    tree-IsHash :
        (d : ℕ) (xs : List (List F)) {root : List F}
        → All IsHash xs
        → tree join_hashes d xs ≡ ok root
        → IsHash root
    unfolding tree poseidon_hash_pair
    tree-IsHash zero [] h e = absurd (cc e)
    tree-IsHash zero (x ∷ []) {root} h e = let same : x ≡ root = cc e in rw same at h.0
    tree-IsHash zero (x ∷ y ∷ xs) h e = absurd (cc e)
    tree-IsHash (suc d) xs {root} h e =
        let (a, p, e1) = >>=-eq-ok (tree join_hashes d (take (2 ^ d) xs)) _ e in
        let (b, q, e2) = >>=-eq-ok (tree join_hashes d (drop (2 ^ d) xs)) _ e1 in
        let same : hash (a ++ b) ≡ root = cc e2 in ap length (sym same) ∙ length-hash (a ++ b)

    -- Leaves under one root are the same.
    pub tree_binds :
        (d : ℕ) (xs ys : List (List F)) {root : List F}
        → length xs ≡ 2 ^ d
        → length ys ≡ 2 ^ d
        → All IsHash xs
        → All IsHash ys
        → tree join_hashes d xs ≡ ok root
        → tree join_hashes d ys ≡ ok root
        → (xs ≡ ys) ⊎ Collision hash
    unfolding tree
    tree_binds zero [] ys l l' h h' e e' = absurd (cc e)
    tree_binds zero (x ∷ y ∷ xs) ys l l' h h' e e' = absurd (cc e)
    tree_binds zero (x ∷ []) [] l l' h h' e e' = absurd (cc e')
    tree_binds zero (x ∷ []) (y ∷ z ∷ ys) l l' h h' e e' = absurd (cc e')
    tree_binds zero (x ∷ []) (y ∷ []) l l' h h' e e' =
        let same : x ≡ y = cc (e, e') in inl (ap (λ z. z ∷ []) same)
    tree_binds (suc d) xs ys {root} l l' h h' e e' =
        let n = 2 ^ d in
        let whole = two-pow-succ d in
        let (a, p, e1) = >>=-eq-ok (tree join_hashes d (take n xs)) _ e in
        let (b, q, e2) = >>=-eq-ok (tree join_hashes d (drop n xs)) _ e1 in
        let (a', p', e1') = >>=-eq-ok (tree join_hashes d (take n ys)) _ e' in
        let (b', q', e2') = >>=-eq-ok (tree join_hashes d (drop n ys)) _ e1' in
        let hx = all_take n xs h in
        let hy = all_take n ys h' in
        let same : poseidon_hash_pair hash a b ≡ poseidon_hash_pair hash a' b' = cc (e2, e2') in
        elim (pair_binds a b a' b' (tree-IsHash d (take n xs) hx p)
          (tree-IsHash d (drop n xs) (all_drop n xs h) q) (tree-IsHash d (take n ys) hy p')
          (tree-IsHash d (drop n ys) (all_drop n ys h') q') same) [
            | inr c ↦ inr c
            | inl (u, v) ↦
                let fronts =
                  tree_binds d (take n xs) (take n ys) (omega (arith, length-take n xs))
                    (omega (arith, length-take n ys)) hx hy p (p' ∙ ap ok (sym u)) in
                let backs =
                  tree_binds d (drop n xs) (drop n ys) (omega (arith, length-drop n xs))
                    (omega (arith, length-drop n ys)) (all_drop n xs h) (all_drop n ys h') q
                    (q' ∙ ap ok (sym v)) in
                elim fronts [
                  | inr c ↦ inr c
                  | inl s ↦ elim backs [
                    | inr c ↦ inr c
                    | inl t ↦ inl (
                        sym (take-append-drop n xs)
                        ∙ ap₂ (λ f g. f ++ g) s t
                        ∙ take-append-drop n ys)
                  ]
                ]
          ]
