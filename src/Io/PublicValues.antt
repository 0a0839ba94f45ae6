-- ===== src/Io/PublicValues.antt =====
-- The public inputs of a proof are read back as the inputs and outputs that the circuit declared.
use mathlib.Core.Path.{subst}
use mathlib.Core.List.{map-append}
use succinctx.Prelude.{
  ℕ, ◌*◌, ◌≡◌, refl, sym, ap, ap₂, ◌∙◌, Bool, List, [], ◌++◌, map, append-nil, arith, le→ltb_false,
  length, length-append, length-map, ok,
}
use succinctx.Stream.{new}
use succinctx.Stream.At.{at, take-append, drop-append}
use succinctx.Io.Schema.{BytesIo, CircuitIo, bytes, Builder, pre_build, flat_map}
use succinctx.Io.Invariant.{Reach, BuildsTo, Reach-BuildsTo}
use succinctx.Io.Public.{
  bytes_input, bytes_output, slice_to, slice_from, byte, read_bytes, input_from_proof_with_pis,
  output_from_proof_with_pis, AreBytes, AreBytes-map, map-flat_map, length-flat_map, read_bytes-at,
}

slice_to-append : {A : Type 0} (xs ys : List A) → slice_to (xs ++ ys) (length xs) ≡ ok xs
unfolding slice_to
slice_to-append xs ys =
    let l = length-append xs ys in
    rw (le→ltb_false (length (xs ++ ys)) (length xs) (omega (arith, l)), take-append xs ys) refl

slice_from-append : {A : Type 0} (xs ys : List A) → slice_from (xs ++ ys) (length xs) ≡ ok ys
unfolding slice_from
slice_from-append xs ys =
    let l = length-append xs ys in
    rw (le→ltb_false (length (xs ++ ys)) (length xs) (omega (arith, l)), drop-append xs ys) refl

module _ {F : Type 0} (is_one : F → Bool) where
  read_bytes-new :
      (n : ℕ) (bs : List (List F))
      → n ≡ length bs
      → AreBytes bs
      → read_bytes is_one n (new (flat_map bs)) ≡ ok (map (byte is_one) bs, at (flat_map bs) [])
  read_bytes-new n bs e h =
      ap₂ (λ k l. read_bytes is_one k (new l)) e (sym (append-nil (flat_map bs)))
      ∙ read_bytes-at is_one [] bs [] h

  module _ {Target Proof Verifier : Type 0} (ProofValue ProofId VerifierValue : Type 0)
      (value : Target → F) where
    values-bytes :
        (io : BytesIo Target Proof Verifier)
        → AreBytes io.input
        → AreBytes io.output
        → let public_inputs = map value (flat_map io.input ++ flat_map io.output) in
          let schema : CircuitIo Target Proof Verifier = bytes io in
          (input_from_proof_with_pis is_one ProofValue ProofId VerifierValue schema public_inputs
            ≡ ok (bytes_input (map (byte is_one) (map (map value) io.input))))
          × (output_from_proof_with_pis is_one schema public_inputs
              ≡ ok (bytes_output (map (byte is_one) (map (map value) io.output))))
    unfolding input_from_proof_with_pis output_from_proof_with_pis
    values-bytes io hi ho =
        let ins = map (map value) io.input in
        let outs = map (map value) io.output in
        let split : map value (flat_map io.input ++ flat_map io.output)
            ≡ flat_map ins ++ flat_map outs =
          map-append value (flat_map io.input) (flat_map io.output)
          ∙ ap₂ (λ xs ys. xs ++ ys) (map-flat_map value io.input) (map-flat_map value io.output) in
        let count : length io.input ≡ length ins = sym (length-map io.input (map value)) in
        let count' : length io.output ≡ length outs = sym (length-map io.output (map value)) in
        let offset : 8 * length io.input ≡ length (flat_map ins) =
          ap (λ n. 8 * n) count ∙ sym (length-flat_map ins (AreBytes-map value io.input hi)) in
        rw
          (
            split,
            offset,
            slice_to-append (flat_map ins) (flat_map outs),
            slice_from-append (flat_map ins) (flat_map outs),
            read_bytes-new (length io.input) ins count (AreBytes-map value io.input hi),
            read_bytes-new (length io.output) outs count' (AreBytes-map value io.output ho),
          )
          (refl, refl)

    -- For every builder with a schema of bytes that operations reach, where every byte has eight
    -- variables: the build registers public inputs, and from the values that a proof gives them,
    -- the input and the output are read back as the values of the bytes that the circuit read and
    -- wrote, in order.
    pub from_proof_with_pis-pre_build :
        (b : Builder Target Proof Verifier) (io : BytesIo Target Proof Verifier)
        → Reach Target Proof Verifier b
        → b.io ≡ bytes io
        → AreBytes io.input
        → AreBytes io.output
        → (registered : List Target) × (pre_build b ≡ ok registered)
          × (input_from_proof_with_pis is_one ProofValue ProofId VerifierValue b.io
                (map value registered)
              ≡ ok (bytes_input (map (byte is_one) (map (map value) io.input))))
          × (output_from_proof_with_pis is_one b.io (map value registered)
              ≡ ok (bytes_output (map (byte is_one) (map (map value) io.output))))
    from_proof_with_pis-pre_build b io r e hi ho =
        let built = subst (λ i. BuildsTo i (pre_build b)) e (Reach-BuildsTo r) in
        let (ein, eout) = values-bytes io hi ho in
        (
          flat_map io.input ++ flat_map io.output,
          built,
          ap
                (λ i.
                  input_from_proof_with_pis is_one ProofValue ProofId VerifierValue i
                    (map value (flat_map io.input ++ flat_map io.output)))
                e
              ∙ ein,
          ap
                (λ i.
                  output_from_proof_with_pis is_one i
                    (map value (flat_map io.input ++ flat_map io.output)))
                e
              ∙ eout,
        )
