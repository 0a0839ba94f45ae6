-- ===== src/Io/Schema.antt =====
-- plonky2x/core/src/frontend/builder/io.rs: the state of the builder's inputs and outputs.
use succinctx.Prelude.{
  Bool, true, false, Option, none, some, List, [], ◌∷◌, ◌++◌, if◌then◌else◌, Outcome, ok, panic,
  ◌>>=◌,
}

-- Targets, proofs and verifier data are plonky2's.
module _ (Target Proof Verifier : Type 0) where
  pub record BytesIo : Type 0 where
    pub input : List (List Target)
    pub output : List (List Target)

  pub record ElementsIo : Type 0 where
    pub input : List Target
    pub output : List Target

  pub record RecursiveProofsIo : Type 0 where
    pub proof_input : List Proof
    pub input : List Target
    pub output : List Target

  pub record CyclicProofIo : Type 0 where
    pub input : List Target
    pub proof : Option Proof
    pub verifier_data : Option Verifier
    pub output : List Target
    pub closed : Bool

  pub data CircuitIo : Type 0 where
    bytes : BytesIo → CircuitIo
    elements : ElementsIo → CircuitIo
    recursive_proofs : RecursiveProofsIo → CircuitIo
    cyclic_proof : CyclicProofIo → CircuitIo
    no_io : CircuitIo

  -- The schema, and the public inputs that are registered with plonky2 so far.
  pub record Builder : Type 0 where
    pub io : CircuitIo
    pub public_inputs : List Target

unfoldable pub set_proof {ℓ} : {A : Type ℓ} → A → Option A → Outcome (Option A)
set_proof proof none = ok (some proof)
set_proof proof (some other) = panic

unfoldable pub flat_map {ℓ} : {A : Type ℓ} → List (List A) → List A
flat_map [] = []
flat_map (b ∷ bs) = b ++ flat_map bs

module _ {Target Proof Verifier : Type 0} where
  abbrev pub new : Builder Target Proof Verifier
  new = record { io = no_io; public_inputs = [] }

  unfoldable pub try_init_field_io :
      CircuitIo Target Proof Verifier → Outcome (CircuitIo Target Proof Verifier)
  try_init_field_io no_io = ok (elements (record { input = []; output = [] }))
  try_init_field_io (elements io) = ok (elements io)
  try_init_field_io (recursive_proofs io) = ok (recursive_proofs io)
  try_init_field_io (cyclic_proof io) = ok (cyclic_proof io)
  try_init_field_io (bytes io) = panic

  unfoldable pub try_init_evm_io :
      CircuitIo Target Proof Verifier → Outcome (CircuitIo Target Proof Verifier)
  try_init_evm_io no_io = ok (bytes (record { input = []; output = [] }))
  try_init_evm_io (bytes io) = ok (bytes io)
  try_init_evm_io (elements io) = panic
  try_init_evm_io (recursive_proofs io) = panic
  try_init_evm_io (cyclic_proof io) = panic

  unfoldable pub try_init_proof_io :
      CircuitIo Target Proof Verifier → Outcome (CircuitIo Target Proof Verifier)
  try_init_proof_io no_io =
      ok (recursive_proofs (record { proof_input = []; input = []; output = [] }))
  try_init_proof_io (recursive_proofs io) = ok (recursive_proofs io)
  try_init_proof_io (cyclic_proof io) = ok (cyclic_proof io)
  try_init_proof_io (bytes io) = panic
  try_init_proof_io (elements io) = panic

  unfoldable pub use_cyclic_recursion :
      CircuitIo Target Proof Verifier → Outcome (CircuitIo Target Proof Verifier)
  use_cyclic_recursion no_io = ok (
      cyclic_proof
        (record { input = []; proof = none; verifier_data = none; output = []; closed = false }))
  use_cyclic_recursion (cyclic_proof io) = ok (cyclic_proof io)
  use_cyclic_recursion (bytes io) = panic
  use_cyclic_recursion (elements io) = panic
  use_cyclic_recursion (recursive_proofs io) = panic

  -- The last match of `read`, on the variables of what is read.
  unfoldable pub read_io :
      List Target → CircuitIo Target Proof Verifier → Outcome (CircuitIo Target Proof Verifier)
  read_io variables (elements io) = ok (elements (record io { input = io.input ++ variables }))
  read_io variables (recursive_proofs io) =
      ok (recursive_proofs (record io { input = io.input ++ variables }))
  read_io variables (cyclic_proof io) =
      ok (cyclic_proof (record io { input = io.input ++ variables }))
  read_io variables (bytes io) = panic
  read_io variables no_io = panic

  unfoldable pub read :
      List Target → CircuitIo Target Proof Verifier → Outcome (CircuitIo Target Proof Verifier)
  unfolding try_init_field_io read_io
  read variables io = try_init_field_io io >>= read_io variables

  unfoldable pub evm_read_io :
      List (List Target)
      → CircuitIo Target Proof Verifier
      → Outcome (CircuitIo Target Proof Verifier)
  evm_read_io new_bytes (bytes io) = ok (bytes (record io { input = io.input ++ new_bytes }))
  evm_read_io new_bytes (elements io) = panic
  evm_read_io new_bytes (recursive_proofs io) = panic
  evm_read_io new_bytes (cyclic_proof io) = panic
  evm_read_io new_bytes no_io = panic

  unfoldable pub evm_read :
      List (List Target)
      → CircuitIo Target Proof Verifier
      → Outcome (CircuitIo Target Proof Verifier)
  unfolding try_init_evm_io evm_read_io
  evm_read new_bytes io = try_init_evm_io io >>= evm_read_io new_bytes

  unfoldable pub proof_read_io :
      Proof → CircuitIo Target Proof Verifier → Outcome (CircuitIo Target Proof Verifier)
  unfolding set_proof
  proof_read_io proof (recursive_proofs io) =
      ok (recursive_proofs (record io { proof_input = io.proof_input ++ (proof ∷ []) }))
  proof_read_io proof (cyclic_proof io) =
      set_proof proof io.proof >>= λ p. ok (cyclic_proof (record io { proof = p }))
  proof_read_io proof (bytes io) = panic
  proof_read_io proof (elements io) = panic
  proof_read_io proof no_io = panic

  unfoldable pub proof_read :
      Proof → CircuitIo Target Proof Verifier → Outcome (CircuitIo Target Proof Verifier)
  unfolding try_init_proof_io proof_read_io
  proof_read proof io = try_init_proof_io io >>= proof_read_io proof

  unfoldable pub read_verifier_data : CircuitIo Target Proof Verifier → Outcome Verifier
  read_verifier_data (cyclic_proof io) = elim io.verifier_data [ none ↦ panic | some v ↦ ok v ]
  read_verifier_data (bytes io) = panic
  read_verifier_data (elements io) = panic
  read_verifier_data (recursive_proofs io) = panic
  read_verifier_data no_io = panic

  unfoldable pub write_io :
      List Target → CircuitIo Target Proof Verifier → Outcome (CircuitIo Target Proof Verifier)
  write_io variables (elements io) = ok (elements (record io { output = io.output ++ variables }))
  write_io variables (cyclic_proof io) =
      ok (cyclic_proof (record io { output = io.output ++ variables }))
  write_io variables (recursive_proofs io) = panic
  write_io variables (bytes io) = panic
  write_io variables no_io = panic

  unfoldable pub write :
      List Target → CircuitIo Target Proof Verifier → Outcome (CircuitIo Target Proof Verifier)
  unfolding try_init_field_io write_io
  write variables io = try_init_field_io io >>= write_io variables

  unfoldable pub evm_write_io :
      List (List Target)
      → CircuitIo Target Proof Verifier
      → Outcome (CircuitIo Target Proof Verifier)
  evm_write_io new_bytes (bytes io) = ok (bytes (record io { output = io.output ++ new_bytes }))
  evm_write_io new_bytes (elements io) = panic
  evm_write_io new_bytes (recursive_proofs io) = panic
  evm_write_io new_bytes (cyclic_proof io) = panic
  evm_write_io new_bytes no_io = panic

  unfoldable pub evm_write :
      List (List Target)
      → CircuitIo Target Proof Verifier
      → Outcome (CircuitIo Target Proof Verifier)
  unfolding try_init_evm_io evm_write_io
  evm_write new_bytes io = try_init_evm_io io >>= evm_write_io new_bytes

  unfoldable pub proof_write_io :
      List Target → CircuitIo Target Proof Verifier → Outcome (CircuitIo Target Proof Verifier)
  proof_write_io variables (recursive_proofs io) =
      ok (recursive_proofs (record io { output = io.output ++ variables }))
  proof_write_io variables (cyclic_proof io) = panic
  proof_write_io variables (bytes io) = panic
  proof_write_io variables (elements io) = panic
  proof_write_io variables no_io = panic

  unfoldable pub proof_write :
      List Target → CircuitIo Target Proof Verifier → Outcome (CircuitIo Target Proof Verifier)
  unfolding try_init_proof_io proof_write_io
  proof_write variables io = try_init_proof_io io >>= proof_write_io variables

  -- plonky2's `add_verifier_data_public_inputs` makes `verifier` and registers its targets.
  unfoldable pub close_cyclic_io :
      Verifier
      → List Target
      → Builder Target Proof Verifier
      → Outcome (Builder Target Proof Verifier)
  close_cyclic_io verifier targets builder = elim builder.io [
    | cyclic_proof io ↦
        if io.closed
        then panic
        else ok (record {
          io = cyclic_proof (record io { closed = true; verifier_data = some verifier });
          public_inputs = builder.public_inputs ++ io.input ++ io.output ++ targets;
        })
    | bytes io ↦ panic
    | elements io ↦ panic
    | recursive_proofs io ↦ panic
    | no_io ↦ panic
  ]

  -- The last match of `pre_build`.
  unfoldable pub pre_build : Builder Target Proof Verifier → Outcome (List Target)
  unfolding flat_map
  pre_build builder = elim builder.io [
    | bytes io ↦ ok (builder.public_inputs ++ flat_map io.input ++ flat_map io.output)
    | elements io ↦ ok (builder.public_inputs ++ io.input ++ io.output)
    | recursive_proofs io ↦ ok (builder.public_inputs ++ io.output)
    | cyclic_proof io ↦ if io.closed then ok builder.public_inputs else panic
    | no_io ↦ ok builder.public_inputs
  ]
