-- ===== src/Io/Public.antt =====
-- plonky2x/core/src/backend/circuit/input.rs and output.rs: the public inputs of a proof, read with
-- the schema of the circuit.
use mathlib.Core.List.{map-append}
use succinctx.Prelude.{
  Option, ℕ, zero, suc, ◌*◌, ◌≡◌, refl, sym, ap, ◌∙◌, Bool, List, [], ◌∷◌, ◌++◌, map, append-nil,
  append_assoc, arith, ltb, ◌==◌, if◌then◌else◌, length, length-append, take, drop, length-map,
  Outcome, ok, panic, ◌>>=◌,
}
use succinctx.Stream.{Stream, new, read_exact}
use succinctx.Stream.At.{at, read_exact-at}
use succinctx.Vars.Byte.{from_elements}
use succinctx.Io.Schema.{
  CircuitIo, bytes, elements, recursive_proofs, cyclic_proof, no_io, flat_map,
}

-- The proofs, their identifiers and the verifier data are plonky2's and the prover's.
module _ (F ProofValue ProofId VerifierValue : Type 0) where
  pub data PublicInput : Type 0 where
    bytes_input : List ℕ → PublicInput
    elements_input : List F → PublicInput
    recursive_proofs_input : List ProofValue → List F → PublicInput
    remote_recursive_proofs_input : List ProofId → PublicInput
    cyclic_proof_input : List F → Option ProofValue → Option VerifierValue → PublicInput
    no_input : PublicInput

pub data PublicOutput (F : Type 0) : Type 0 where
  bytes_output : List ℕ → PublicOutput F
  elements_output : List F → PublicOutput F
  proofs_output : List F → PublicOutput F
  no_output : PublicOutput F

-- `public_inputs[..offset]` and `public_inputs[offset..]`.
unfoldable pub slice_to {ℓ} : {A : Type ℓ} → List A → ℕ → Outcome (List A)
slice_to xs offset = if ltb (length xs) offset then panic else ok (take offset xs)

unfoldable pub slice_from {ℓ} : {A : Type ℓ} → List A → ℕ → Outcome (List A)
slice_from xs offset = if ltb (length xs) offset then panic else ok (drop offset xs)

-- `is_one` compares an element with the one of the field.
module _ {F : Type 0} (is_one : F → Bool) where
  abbrev pub byte : List F → ℕ
  byte values = from_elements (map is_one values)

  -- `read_value::<ByteVariable>`, as often as there are bytes.
  unfoldable pub read_bytes : ℕ → Stream F → Outcome (List ℕ × Stream F)
  read_bytes zero stream = ok ([], stream)
  read_bytes (suc n) stream =
      read_exact stream 8 >>= λ p. read_bytes n p.1 >>= λ q. ok (byte p.0 ∷ q.0, q.1)

  module _ {Target Proof Verifier : Type 0} where
    module _ (ProofValue ProofId VerifierValue : Type 0) where
      unfoldable pub input_from_proof_with_pis :
          CircuitIo Target Proof Verifier
          → List F
          → Outcome (PublicInput F ProofValue ProofId VerifierValue)
      unfolding read_bytes slice_to
      input_from_proof_with_pis (bytes io) public_inputs =
          slice_to public_inputs (8 * length io.input) >>= λ values.
          read_bytes (length io.input) (new values) >>= λ r. ok (bytes_input r.0)
      input_from_proof_with_pis (elements io) public_inputs =
          slice_to public_inputs (length io.input) >>= λ values. ok (elements_input values)
      input_from_proof_with_pis (recursive_proofs io) public_inputs = panic
      input_from_proof_with_pis (cyclic_proof io) public_inputs = panic
      input_from_proof_with_pis no_io public_inputs = ok no_input

    unfoldable pub output_from_proof_with_pis :
        CircuitIo Target Proof Verifier → List F → Outcome (PublicOutput F)
    unfolding read_bytes slice_from
    output_from_proof_with_pis (bytes io) public_inputs =
        slice_from public_inputs (8 * length io.input) >>= λ values.
        read_bytes (length io.output) (new values) >>= λ r. ok (bytes_output r.0)
    output_from_proof_with_pis (elements io) public_inputs =
        slice_from public_inputs (length io.input) >>= λ values. ok (elements_output values)
    output_from_proof_with_pis (recursive_proofs io) public_inputs =
        if length io.output == length public_inputs then ok (proofs_output public_inputs) else panic
    output_from_proof_with_pis (cyclic_proof io) public_inputs =
        slice_from public_inputs (length io.input) >>= λ values. ok (elements_output values)
    output_from_proof_with_pis no_io public_inputs = ok no_output

-- Every byte has eight variables.
abbrev pub AreBytes {ℓ} : {A : Type ℓ} → List (List A) → Type 0
AreBytes [] = Unit {0}
AreBytes (b ∷ bs) = (length b ≡ 8) × AreBytes bs

pub map-flat_map {ℓ κ} :
    {A : Type ℓ} {B : Type κ} (g : A → B) (bs : List (List A))
    → map g (flat_map bs) ≡ flat_map (map (map g) bs)
unfolding flat_map
map-flat_map g [] = refl
map-flat_map g (b ∷ bs) = map-append g b (flat_map bs) ∙ ap (λ l. map g b ++ l) (map-flat_map g bs)

pub AreBytes-map {ℓ κ} :
    {A : Type ℓ} {B : Type κ} (g : A → B) (bs : List (List A))
    → AreBytes bs
    → AreBytes (map (map g) bs)
AreBytes-map g [] h = tt
AreBytes-map g (b ∷ bs) h = (length-map b g ∙ h.0, AreBytes-map g bs h.1)

pub length-flat_map {ℓ} :
    {A : Type ℓ} (bs : List (List A)) → AreBytes bs → length (flat_map bs) ≡ 8 * length bs
unfolding flat_map
length-flat_map [] h = omega arith
length-flat_map (b ∷ bs) h =
    let l = length-append b (flat_map bs) in omega (arith, l, h.0, length-flat_map bs h.1)

module _ {F : Type 0} (is_one : F → Bool) where
  pub read_bytes-at :
      (before : List F) (bs : List (List F)) (after : List F)
      → AreBytes bs
      → read_bytes is_one (length bs) (at before (flat_map bs ++ after))
        ≡ ok (map (byte is_one) bs, at (before ++ flat_map bs) after)
  unfolding read_bytes flat_map
  read_bytes-at before [] after h = ap (λ l. ok ([], at l after)) (sym (append-nil before))
  read_bytes-at before (b ∷ bs) after h =
      rw
        (
          append_assoc b (flat_map bs) after,
          sym h.0,
          read_exact-at before b (flat_map bs ++ after),
          read_bytes-at (before ++ b) bs after h.1,
          append_assoc before b (flat_map bs),
        )
        refl
