-- ===== src/Io/Tests.antt =====
-- Examples of the inputs and outputs of circuits: targets, proofs and verifier data are numbers.
use succinctx.Prelude.{
  ℕ, ◌≡◌, refl, true, false, ◌||◌, none, some, List, [], ◌∷◌, map, ◌==◌, if◌then◌else◌, ok,
}
use succinctx.Io.Schema.{
  BytesIo, CyclicProofIo, bytes, cyclic_proof, Builder, new, read, evm_read, evm_write,
  use_cyclic_recursion, try_init_evm_io, evm_read_io, evm_write_io, try_init_field_io, read_io,
  close_cyclic_io, pre_build,
}
use succinctx.Io.Steps.{op_evm_read, op_evm_write, op_read, op_use_cyclic_recursion, run}
use succinctx.Io.Invariant.{operate, close, Reach, start, next, Reach-BuildsTo, BuildsTo}
use succinctx.Io.Public.{
  byte, bytes_input, bytes_output, input_from_proof_with_pis, output_from_proof_with_pis,
}
use succinctx.Io.PublicValues.{from_proof_with_pis-pre_build}

abbrev in_byte : List ℕ
in_byte = 0 ∷ 1 ∷ 2 ∷ 3 ∷ 4 ∷ 5 ∷ 6 ∷ 7 ∷ []

abbrev out_byte : List ℕ
out_byte = 8 ∷ 9 ∷ 10 ∷ 11 ∷ 12 ∷ 13 ∷ 14 ∷ 15 ∷ []

abbrev one_in : BytesIo ℕ ℕ ℕ
one_in = record { input = in_byte ∷ []; output = [] }

abbrev one_each : BytesIo ℕ ℕ ℕ
one_each = record { input = in_byte ∷ []; output = out_byte ∷ [] }

abbrev built : Builder ℕ ℕ ℕ
built = record { io = bytes one_each; public_inputs = [] }

built-Reach : Reach ℕ ℕ ℕ built
unfolding run evm_read evm_write try_init_evm_io evm_read_io evm_write_io
built-Reach = next (next start (operate new (op_evm_read (in_byte ∷ [])) (bytes one_in) refl)) (
    operate (record { io = bytes one_in; public_inputs = [] }) (op_evm_write (out_byte ∷ []))
      (bytes one_each) refl)

-- The last bit of the input and the last two of the output are set.
abbrev value : ℕ → ℕ
value n = if n == 7 || n == 14 || n == 15 then 1 else 0

from_proof_with_pis-pre_build_example :
    (registered : List ℕ) × (pre_build built ≡ ok registered)
    × (input_from_proof_with_pis (λ n. n == 1) ℕ ℕ ℕ built.io (map value registered)
        ≡ ok (bytes_input (map (byte (λ n. n == 1)) (map (map value) (in_byte ∷ [])))))
    × (output_from_proof_with_pis (λ n. n == 1) built.io (map value registered)
        ≡ ok (bytes_output (map (byte (λ n. n == 1)) (map (map value) (out_byte ∷ [])))))
from_proof_with_pis-pre_build_example =
    from_proof_with_pis-pre_build (λ n. n == 1) ℕ ℕ ℕ value built one_each built-Reach refl
      (refl, tt) (refl, tt)

abbrev read_before : CyclicProofIo ℕ ℕ ℕ
read_before = record {
  input = 1 ∷ 2 ∷ [];
  proof = none;
  verifier_data = none;
  output = [];
  closed = false;
}

abbrev closed_io : CyclicProofIo ℕ ℕ ℕ
closed_io = record read_before { closed = true; verifier_data = some 5 }

abbrev read_after : CyclicProofIo ℕ ℕ ℕ
read_after = record closed_io { input = 1 ∷ 2 ∷ 3 ∷ [] }

abbrev late : Builder ℕ ℕ ℕ
late = record { io = cyclic_proof read_after; public_inputs = 1 ∷ 2 ∷ 20 ∷ [] }

abbrev empty_cyclic : CyclicProofIo ℕ ℕ ℕ
empty_cyclic = record {
  input = [];
  proof = none;
  verifier_data = none;
  output = [];
  closed = false;
}

-- Target 3 is read after the schema is closed.
late-Reach : Reach ℕ ℕ ℕ late
unfolding run read use_cyclic_recursion try_init_field_io read_io close_cyclic_io
late-Reach =
    next
      (next
        (next (next start (operate new op_use_cyclic_recursion (cyclic_proof empty_cyclic) refl)) (
          operate (record { io = cyclic_proof empty_cyclic; public_inputs = [] })
            (op_read (1 ∷ 2 ∷ [])) (cyclic_proof read_before) refl))
        (close (record { io = cyclic_proof read_before; public_inputs = [] })
          (record { io = cyclic_proof closed_io; public_inputs = 1 ∷ 2 ∷ 20 ∷ [] }) 5 (20 ∷ [])
          refl))
      (operate (record { io = cyclic_proof closed_io; public_inputs = 1 ∷ 2 ∷ 20 ∷ [] })
        (op_read (3 ∷ [])) (cyclic_proof read_after) refl)

Reach-BuildsTo_example : BuildsTo (cyclic_proof read_after) (pre_build late)
Reach-BuildsTo_example = Reach-BuildsTo late-Reach
