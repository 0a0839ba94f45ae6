-- ===== src/Io/Steps.antt =====
-- What sequences of the builder's operations do to the inputs and outputs.
use mathlib.Core.Path.{subst}
use succinctx.Prelude.{
  ◌≡◌, refl, sym, ap, ◌∙◌, false, none, List, [], ◌∷◌, ◌++◌, append-nil, append_assoc, Outcome, ok,
  panic, stuck, >>=-eq-ok,
}
use succinctx.Io.Schema.{
  BytesIo, ElementsIo, RecursiveProofsIo, CyclicProofIo, CircuitIo, bytes, elements,
  recursive_proofs, cyclic_proof, no_io, read, evm_read, proof_read, write, evm_write, proof_write,
  use_cyclic_recursion, set_proof, try_init_field_io, try_init_evm_io, try_init_proof_io, read_io,
  evm_read_io, proof_read_io, write_io, evm_write_io, proof_write_io,
}

abbrev pub IsPrefix : {A : Type 0} → List A → List A → Type 0
IsPrefix {A} xs ys = (rest : List A) × (ys ≡ xs ++ rest)

pub prefix_refl : {A : Type 0} (xs : List A) → IsPrefix xs xs
prefix_refl xs = ([], sym (append-nil xs))

prefix-append : {A : Type 0} (xs ys : List A) → IsPrefix xs (xs ++ ys)
prefix-append xs ys = (ys, refl)

pub prefix_trans :
    {A : Type 0} (xs ys zs : List A) → IsPrefix xs ys → IsPrefix ys zs → IsPrefix xs zs
prefix_trans xs ys zs (r, e) (r', e') = (r ++ r', e' ∙ ap (λ l. l ++ r') e ∙ append_assoc xs r r')

pub from_ok {ℓ} : {A : Type ℓ} {x y : A} → ok x ≡ ok y → x ≡ y
from_ok {x = x} e = ap (λ o. elim o [ ok a ↦ a | panic ↦ x | stuck ↦ x ]) e

module _ (Target Proof : Type 0) where
  -- The operations that change the schema only.
  pub data Op : Type 0 where
    op_read : List Target → Op
    op_evm_read : List (List Target) → Op
    op_proof_read : Proof → Op
    op_write : List Target → Op
    op_evm_write : List (List Target) → Op
    op_proof_write : List Target → Op
    op_use_cyclic_recursion : Op

module _ (Target Proof Verifier : Type 0) where
  abbrev pub Io : Type 0
  Io = CircuitIo Target Proof Verifier

module _ {Target Proof Verifier : Type 0} where
  unfoldable pub run :
      Op Target Proof → Io Target Proof Verifier → Outcome (Io Target Proof Verifier)
  unfolding read evm_read proof_read write evm_write proof_write use_cyclic_recursion
  run (op_read variables) io = read variables io
  run (op_evm_read new_bytes) io = evm_read new_bytes io
  run (op_proof_read proof) io = proof_read proof io
  run (op_write variables) io = write variables io
  run (op_evm_write new_bytes) io = evm_write new_bytes io
  run (op_proof_write variables) io = proof_write variables io
  run op_use_cyclic_recursion io = use_cyclic_recursion io

  -- No cyclic schema that is closed already.
  abbrev pub IsOpen : Io Target Proof Verifier → Type 0
  IsOpen (cyclic_proof io) = (io.closed ≡ false) × (io.verifier_data ≡ none)
  IsOpen (bytes io) = Unit {0}
  IsOpen (elements io) = Unit {0}
  IsOpen (recursive_proofs io) = Unit {0}
  IsOpen no_io = Unit {0}

  -- A schema of the same kind whose lists are longer.
  abbrev pub Extends : Io Target Proof Verifier → Io Target Proof Verifier → Type 0
  Extends no_io io' = IsOpen io'
  Extends (bytes io) io' =
      (io₂ : BytesIo Target Proof Verifier) × (io' ≡ bytes io₂)
      × IsPrefix io.input io₂.input
      × IsPrefix io.output io₂.output
  Extends (elements io) io' =
      (io₂ : ElementsIo Target Proof Verifier) × (io' ≡ elements io₂)
      × IsPrefix io.input io₂.input
      × IsPrefix io.output io₂.output
  Extends (recursive_proofs io) io' =
      (io₂ : RecursiveProofsIo Target Proof Verifier) × (io' ≡ recursive_proofs io₂)
      × IsPrefix io.proof_input io₂.proof_input
      × IsPrefix io.input io₂.input
      × IsPrefix io.output io₂.output
  Extends (cyclic_proof io) io' =
      (io₂ : CyclicProofIo Target Proof Verifier) × (io' ≡ cyclic_proof io₂)
      × IsPrefix io.input io₂.input
      × IsPrefix io.output io₂.output
      × (io₂.closed ≡ io.closed)
      × (io₂.verifier_data ≡ io.verifier_data)

  -- An operation that does not panic keeps the kind of the schema, if there was one, and only appends
  -- to its lists; it neither opens nor closes a cyclic schema.
  pub run-Extends :
      (op : Op Target Proof) (io io' : Io Target Proof Verifier)
      → run op io ≡ ok io'
      → Extends io io'
  unfolding run read evm_read proof_read write evm_write proof_write use_cyclic_recursion
      try_init_field_io try_init_evm_io try_init_proof_io read_io evm_read_io proof_read_io write_io
      evm_write_io proof_write_io
  run-Extends (op_read variables) no_io io' e = subst IsOpen (from_ok e) tt
  run-Extends (op_read variables) (bytes io) io' e = absurd (cc e)
  run-Extends (op_read variables) (elements io) io' e =
      (_, sym (from_ok e), prefix-append io.input variables, prefix_refl io.output)
  run-Extends (op_read variables) (recursive_proofs io) io' e = (
    _,
    sym (from_ok e),
    prefix_refl io.proof_input,
    prefix-append io.input variables,
    prefix_refl io.output,
  )
  run-Extends (op_read variables) (cyclic_proof io) io' e =
      (_, sym (from_ok e), prefix-append io.input variables, prefix_refl io.output, refl, refl)
  run-Extends (op_evm_read new_bytes) no_io io' e = subst IsOpen (from_ok e) tt
  run-Extends (op_evm_read new_bytes) (bytes io) io' e =
      (_, sym (from_ok e), prefix-append io.input new_bytes, prefix_refl io.output)
  run-Extends (op_evm_read new_bytes) (elements io) io' e = absurd (cc e)
  run-Extends (op_evm_read new_bytes) (recursive_proofs io) io' e = absurd (cc e)
  run-Extends (op_evm_read new_bytes) (cyclic_proof io) io' e = absurd (cc e)
  run-Extends (op_proof_read proof) no_io io' e = subst IsOpen (from_ok e) tt
  run-Extends (op_proof_read proof) (bytes io) io' e = absurd (cc e)
  run-Extends (op_proof_read proof) (elements io) io' e = absurd (cc e)
  run-Extends (op_proof_read proof) (recursive_proofs io) io' e = (
    _,
    sym (from_ok e),
    prefix-append io.proof_input (proof ∷ []),
    prefix_refl io.input,
    prefix_refl io.output,
  )
  run-Extends (op_proof_read proof) (cyclic_proof io) io' e =
      let (p, ep, e') = >>=-eq-ok (set_proof proof io.proof) _ e in
      (
        record io { proof = p },
        sym (from_ok e'),
        prefix_refl io.input,
        prefix_refl io.output,
        refl,
        refl,
      )
  run-Extends (op_write variables) no_io io' e = subst IsOpen (from_ok e) tt
  run-Extends (op_write variables) (bytes io) io' e = absurd (cc e)
  run-Extends (op_write variables) (elements io) io' e =
      (_, sym (from_ok e), prefix_refl io.input, prefix-append io.output variables)
  run-Extends (op_write variables) (recursive_proofs io) io' e = absurd (cc e)
  run-Extends (op_write variables) (cyclic_proof io) io' e =
      (_, sym (from_ok e), prefix_refl io.input, prefix-append io.output variables, refl, refl)
  run-Extends (op_evm_write new_bytes) no_io io' e = subst IsOpen (from_ok e) tt
  run-Extends (op_evm_write new_bytes) (bytes io) io' e =
      (_, sym (from_ok e), prefix_refl io.input, prefix-append io.output new_bytes)
  run-Extends (op_evm_write new_bytes) (elements io) io' e = absurd (cc e)
  run-Extends (op_evm_write new_bytes) (recursive_proofs io) io' e = absurd (cc e)
  run-Extends (op_evm_write new_bytes) (cyclic_proof io) io' e = absurd (cc e)
  run-Extends (op_proof_write variables) no_io io' e = subst IsOpen (from_ok e) tt
  run-Extends (op_proof_write variables) (bytes io) io' e = absurd (cc e)
  run-Extends (op_proof_write variables) (elements io) io' e = absurd (cc e)
  run-Extends (op_proof_write variables) (recursive_proofs io) io' e = (
    _,
    sym (from_ok e),
    prefix_refl io.proof_input,
    prefix_refl io.input,
    prefix-append io.output variables,
  )
  run-Extends (op_proof_write variables) (cyclic_proof io) io' e = absurd (cc e)
  run-Extends op_use_cyclic_recursion no_io io' e = subst IsOpen (from_ok e) (refl, refl)
  run-Extends op_use_cyclic_recursion (bytes io) io' e = absurd (cc e)
  run-Extends op_use_cyclic_recursion (elements io) io' e = absurd (cc e)
  run-Extends op_use_cyclic_recursion (recursive_proofs io) io' e = absurd (cc e)
  run-Extends op_use_cyclic_recursion (cyclic_proof io) io' e =
      (_, sym (from_ok e), prefix_refl io.input, prefix_refl io.output, refl, refl)
