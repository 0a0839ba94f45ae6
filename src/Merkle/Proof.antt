-- ===== src/Merkle/Proof.antt =====
-- What a Merkle proof of Merkle/Tendermint.antt binds to.
use native.Mathlib.Decide.{ℕ_discrete}
use succinctx.Prelude.{
  ℕ, ◌≡◌, refl, ◌≢◌, ◌⊎◌, inl, inr, Bool, true, false, List, [], ◌∷◌, ◌++◌, arith, length, ok,
}
use succinctx.Merkle.Tendermint.{
  leaf_hash, inner_hash, get_root_from_merkle_proof_hashed_leaf, get_root_from_merkle_proof,
}

-- Every member has the 32 bytes of a `Bytes32Variable`.
abbrev pub AreHashes : List (List ℕ) → Type 0
AreHashes [] = Unit {0}
AreHashes (x ∷ xs) = (length x ≡ 32) × AreHashes xs

-- Two inputs on which a function agrees.
abbrev pub Collision : (List ℕ → List ℕ) → Type 0
Collision f = (x : List ℕ) × (y : List ℕ) × (x ≢ y) × (f x ≡ f y)

bytes-discrete : Discrete (List ℕ)
bytes-discrete = hlevel ℕ_discrete

append-injective :
    (xs ys : List ℕ) {zs ws : List ℕ}
    → length xs ≡ length ys
    → xs ++ zs ≡ ys ++ ws
    → (xs ≡ ys) × (zs ≡ ws)
append-injective [] [] h e = (refl, e)
append-injective [] (y ∷ ys) h e = absurd (omega arith)
append-injective (x ∷ xs) [] h e = absurd (omega arith)
append-injective (x ∷ xs) (y ∷ ys) {zs} {ws} h e =
    let tails : xs ++ zs ≡ ys ++ ws = cc in
    let (p, q) = append-injective xs ys (omega arith) tails in (cc p, q)

module _ (sha256 : List ℕ → List ℕ) (sha256-length : (x : List ℕ) → length (sha256 x) ≡ 32) where
  sha256-binds : (x y : List ℕ) → sha256 x ≡ sha256 y → (x ≡ y) ⊎ Collision sha256
  sha256-binds x y e = elim (bytes-discrete x y) [ yes p ↦ inl p | no p ↦ inr (x, y, p, e) ]

  inner_hash-binds :
      (a b c d : List ℕ)
      → length a ≡ length c
      → inner_hash sha256 a b ≡ inner_hash sha256 c d
      → ((a ≡ c) × (b ≡ d)) ⊎ Collision sha256
  unfolding inner_hash
  inner_hash-binds a b c d h e = elim (sha256-binds _ _ e) [
    | inl p ↦ let tails : a ++ b ≡ c ++ d = cc in inl (append-injective a c h tails)
    | inr x ↦ inr x
  ]

  hash_size : (a b : List ℕ) → length (inner_hash sha256 a b) ≡ 32
  unfolding inner_hash
  hash_size a b = sha256-length _

  -- Two proofs along one path that lead to one root are the same proof of the same leaf hash, unless
  -- they exhibit two inputs on which the hash function agrees.
  get_root_from_merkle_proof_hashed_leaf-binds :
      (path : List Bool) (proof proof' : List (List ℕ)) (leaf leaf' root : List ℕ)
      → length proof ≡ length path
      → length proof' ≡ length path
      → AreHashes proof
      → AreHashes proof'
      → length leaf ≡ 32
      → length leaf' ≡ 32
      → get_root_from_merkle_proof_hashed_leaf sha256 proof path leaf ≡ ok root
      → get_root_from_merkle_proof_hashed_leaf sha256 proof' path leaf' ≡ ok root
      → ((leaf ≡ leaf') × (proof ≡ proof')) ⊎ Collision sha256
  unfolding get_root_from_merkle_proof_hashed_leaf
  get_root_from_merkle_proof_hashed_leaf-binds [] [] [] leaf leaf' root n n' a a' l l' e e' =
      inl (cc, refl)
  get_root_from_merkle_proof_hashed_leaf-binds [] (x ∷ xs) proof' leaf leaf' root n n' a a' l l' e
        e' =
      absurd (omega arith)
  get_root_from_merkle_proof_hashed_leaf-binds [] [] (y ∷ ys) leaf leaf' root n n' a a' l l' e e' =
      absurd (omega arith)
  get_root_from_merkle_proof_hashed_leaf-binds (p ∷ path) [] proof' leaf leaf' root n n' a a' l l' e
        e' =
      absurd (omega arith)
  get_root_from_merkle_proof_hashed_leaf-binds (p ∷ path) (x ∷ xs) [] leaf leaf' root n n' a a' l l'
        e e' =
      absurd (omega arith)
  get_root_from_merkle_proof_hashed_leaf-binds (false ∷ path) (x ∷ xs) (y ∷ ys) leaf leaf' root n n'
        a a' l l' e e' =
      elim (get_root_from_merkle_proof_hashed_leaf-binds path xs ys (inner_hash sha256 leaf x)
        (inner_hash sha256 leaf' y) root (omega arith) (omega arith) a.1 a'.1 (hash_size leaf x)
        (hash_size leaf' y) e e') [
          | inr c ↦ inr c
          | inl (q, r) ↦ elim (inner_hash-binds leaf x leaf' y (omega arith) q) [
            | inr c ↦ inr c
            | inl (s, t) ↦ inl (s, cc (r, t))
          ]
        ]
  get_root_from_merkle_proof_hashed_leaf-binds (true ∷ path) (x ∷ xs) (y ∷ ys) leaf leaf' root n n'
        a a' l l' e e' =
      elim (get_root_from_merkle_proof_hashed_leaf-binds path xs ys (inner_hash sha256 x leaf)
        (inner_hash sha256 y leaf') root (omega arith) (omega arith) a.1 a'.1 (hash_size x leaf)
        (hash_size y leaf') e e') [
          | inr c ↦ inr c
          | inl (q, r) ↦ elim (inner_hash-binds x leaf y leaf' (omega arith) q) [
            | inr c ↦ inr c
            | inl (s, t) ↦ inl (t, cc (r, s))
          ]
        ]

  -- The same from the leaves: two proofs along one path, each of as many 32-byte hashes as the path
  -- has turns, that lead to one root are one proof of one leaf, or exhibit a collision.
  pub get_root_from_merkle_proof-binds :
      (path : List Bool) (proof proof' : List (List ℕ)) (leaf leaf' root : List ℕ)
      → length proof ≡ length path
      → length proof' ≡ length path
      → AreHashes proof
      → AreHashes proof'
      → get_root_from_merkle_proof sha256 proof leaf path ≡ ok root
      → get_root_from_merkle_proof sha256 proof' leaf' path ≡ ok root
      → ((leaf ≡ leaf') × (proof ≡ proof')) ⊎ Collision sha256
  unfolding get_root_from_merkle_proof leaf_hash
  get_root_from_merkle_proof-binds path proof proof' leaf leaf' root n n' a a' e e' =
      elim (get_root_from_merkle_proof_hashed_leaf-binds path proof proof' (sha256 (0 ∷ leaf))
        (sha256 (0 ∷ leaf')) root n n' a a' (sha256-length _) (sha256-length _) e e') [
          | inr c ↦ inr c
          | inl (q, r) ↦ elim (sha256-binds (0 ∷ leaf) (0 ∷ leaf') q) [
            | inr c ↦ inr c
            | inl s ↦ inl (cc s, r)
          ]
        ]
