-- ===== src/MapReduce/Groups.antt =====
-- The groups of inputs that the leaves of MapReduce/Commitment.antt are the hashes of.
use succinctx.Prelude.{
  ℕ, zero, suc, ◌+◌, ◌*◌, ◌/◌, ◌%◌, ◌^◌, ◌≤◌, ◌≡◌, refl, sym, ap, ◌∙◌, ◌⊎◌, inl, inr, not, List, [],
  ◌∷◌, map, arith, ◌==◌, length, take, drop, length-take, length-drop, length-map, ok, ◌>>◌, ensure,
  >>=-eq-ok, ensure-eq-ok,
}
use succinctx.Vars.Circuit.{CircuitVariable, IsLawful}
use succinctx.Vars.Collections.{array_elements, array_from_elements}
use succinctx.Vars.Layout.{All, array_from_elements-elements, length-array_elements}
use succinctx.MapReduce.Commitment.{
  leaf_hash, layers_loop, chunk_loop, chunks, mapreduce_merkle_tree_root, is_power_of_two,
}
use succinctx.MapReduce.Layers.{tree}
use succinctx.MapReduce.Powers.{is_power_of_two-eq}
use succinctx.MapReduce.Binding.{Collision, join_hashes, hash_binds, layers_loop-tree, IsHash}

pub All-take : {A : Type 0} (P : A → Type 0) (n : ℕ) (xs : List A) → All P xs → All P (take n xs)
All-take P zero xs h = tt
All-take P (suc n) [] h = tt
All-take P (suc n) (x ∷ xs) h = (h.0, All-take P n xs h.1)

pub All-drop : {A : Type 0} (P : A → Type 0) (n : ℕ) (xs : List A) → All P xs → All P (drop n xs)
All-drop P zero xs h = h
All-drop P (suc n) [] h = tt
All-drop P (suc n) (x ∷ xs) h = All-drop P n xs h.1

-- A group of `b` members that have a property.
abbrev pub IsGroup : {A : Type 0} → (A → Type 0) → ℕ → List A → Type 0
IsGroup P b xs = (length xs ≡ b) × All P xs

pub chunk_loop-IsGroup :
    {A : Type 0} (P : A → Type 0) (b left i : ℕ) (inputs : List A)
    → (i + left) * b ≤ length inputs
    → All P inputs
    → All (IsGroup P b) (chunk_loop b left i inputs)
unfolding chunk_loop
chunk_loop-IsGroup P b zero i inputs h all = tt
chunk_loop-IsGroup P b (suc left) i inputs h all =
    let shift : i + suc left ≡ i + 1 + left = omega arith in
    let next : (i + 1 + left) * b ≤ length inputs = rw shift at h in
    let fits : i * b + b ≤ length inputs = ground arith in
    let size : length (take b (drop (i * b) inputs)) ≡ b =
      omega (arith, length-take b (drop (i * b) inputs), length-drop (i * b) inputs) in
    (
      (size, All-take P b (drop (i * b) inputs) (All-drop P (i * b) inputs all)),
      chunk_loop-IsGroup P b left (i + 1) inputs next all,
    )

module _ {F : Type 0} (hash : List F → List F) (V : CircuitVariable F) where
  -- A commitment that is computed is the root of a full tree over the groups.
  pub mapreduce_merkle_tree_root-tree :
      (b : ℕ) (inputs : List V.Value) {root : List F}
      → mapreduce_merkle_tree_root hash V b inputs ≡ ok root
      → let groups = chunk_loop b (length inputs / b) 0 inputs in
        (d : ℕ) × (d ≤ 64)
        × (length groups ≡ 2 ^ d)
        × (tree (join_hashes hash) d (map (leaf_hash hash V) groups) ≡ ok root)
  unfolding mapreduce_merkle_tree_root chunks
  mapreduce_merkle_tree_root-tree b inputs {root} e =
      let groups = chunk_loop b (length inputs / b) 0 inputs in
      let leafs = map (leaf_hash hash V) groups in
      let (groups', p, e1) = >>=-eq-ok (chunks b inputs) _ e in
      let (q, e2) = ensure-eq-ok (not (b == 0)) _ p in
      let (r, e3) = ensure-eq-ok (length inputs % b == 0) _ e2 in
      let same : groups' ≡ groups = cc e3 in
      let e4 : (ensure (is_power_of_two (length leafs)) >> layers_loop hash 64 leafs) ≡ ok root =
        rw same at e1 in
      let (power, e5) = ensure-eq-ok (is_power_of_two (length leafs)) _ e4 in
      let (d, h, size) = is_power_of_two-eq (length leafs) power in
      let (root', f, t) = layers_loop-tree hash 64 d leafs h size in
      let same_root : root' ≡ root = cc (f, e5) in
      (d, h, sym (length-map groups (leaf_hash hash V)) ∙ size, t ∙ ap ok same_root)

  module _ (lawful : IsLawful V) (discrete : Discrete (List F))
      (length-hash : (xs : List F) → length (hash xs) ≡ 4) where
    pub leaf_hash-IsHash :
        (groups : List (List V.Value)) → All (IsHash hash) (map (leaf_hash hash V) groups)
    unfolding leaf_hash
    leaf_hash-IsHash [] = tt
    leaf_hash-IsHash (g ∷ groups) = (length-hash _, leaf_hash-IsHash groups)

    -- Groups with the same hashes are the same.
    pub leaf_hash_binds :
        (b : ℕ) (xs ys : List (List V.Value))
        → All (IsGroup lawful.IsValue b) xs
        → All (IsGroup lawful.IsValue b) ys
        → map (leaf_hash hash V) xs ≡ map (leaf_hash hash V) ys
        → (xs ≡ ys) ⊎ Collision hash
    unfolding leaf_hash
    leaf_hash_binds b [] [] h h' e = inl refl
    leaf_hash_binds b [] (y ∷ ys) h h' e = absurd (cc e)
    leaf_hash_binds b (x ∷ xs) [] h h' e = absurd (cc e)
    leaf_hash_binds b (x ∷ xs) (y ∷ ys) h h' e =
        let first : leaf_hash hash V x ≡ leaf_hash hash V y = cc e in
        let rest : map (leaf_hash hash V) xs ≡ map (leaf_hash hash V) ys = cc e in
        let size : length (array_elements V x) ≡ length (array_elements V y) =
          length-array_elements V lawful x h.0.1
          ∙ ap (λ k. k * V.nb_elements) (h.0.0 ∙ sym h'.0.0)
          ∙ sym (length-array_elements V lawful y h'.0.1) in
        elim (hash_binds hash discrete length-hash (array_elements V x) (array_elements V y) size
          first) [
            | inr c ↦ inr c
            | inl same ↦
                let back : ok x ≡ ok y =
                  sym (array_from_elements-elements V lawful b x h.0.0 h.0.1)
                  ∙ ap (array_from_elements V b) same
                  ∙ array_from_elements-elements V lawful b y h'.0.0 h'.0.1 in
                elim (leaf_hash_binds b xs ys h.1 h'.1 rest) [
                  | inr c ↦ inr c
                  | inl t ↦ inl (cc (back, t))
                ]
          ]
