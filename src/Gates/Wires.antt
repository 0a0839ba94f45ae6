-- ===== src/Gates/Wires.antt =====
-- The wires of the gates that are built for a configuration.
use native.Mathlib.Nat.{mul-le-mul_left}
use succinctx.Prelude.{
  ℕ, ◌+◌, ◌*◌, ◌/◌, ◌≤◌, ◌<◌, min, ◌≡◌, sym, ap, ◌∙◌, inl, inr, arith, leb, leb→le, Bool-cases,
  Outcome, ok, panic, stuck,
}
use succinctx.Gates.Arithmetic.{CircuitConfig}
use succinctx.Gates.Arithmetic as Arithmetic
use succinctx.Gates.AddMany as AddMany
use succinctx.Gates.Subtraction as Subtraction

-- A number of operations that a configuration has wires for.
div-mul-le : (n d : ℕ) → d * (n / d) ≤ n
div-mul-le n d = omega arith

-- The wires of a gate with `routed` routed wires and `limbs` limbs for each of `num_ops` operations.
layout :
    (routed limbs num_ops wires routed_wires i j : ℕ)
    → num_ops ≤ wires / (routed + limbs)
    → num_ops ≤ routed_wires / routed
    → i < num_ops
    → j < limbs
    → (routed * num_ops + limbs * num_ops ≤ wires)
      × (routed * i + routed ≤ routed_wires)
      × (routed * i + routed ≤ routed * num_ops + limbs * i + j)
      × (routed * num_ops + limbs * i + j < routed * num_ops + limbs * num_ops)
layout routed limbs num_ops wires routed_wires i j h h' hi hj =
    let total : (routed + limbs) * num_ops ≤ (routed + limbs) * (wires / (routed + limbs)) =
      mul-le-mul_left (routed + limbs) h in
    let all = div-mul-le wires (routed + limbs) in
    let some_routed : routed * num_ops ≤ routed * (routed_wires / routed) =
      mul-le-mul_left routed h' in
    let all_routed = div-mul-le routed_wires routed in
    let next : routed * (i + 1) ≤ routed * num_ops = mul-le-mul_left routed (omega arith) in
    let next_limb : limbs * (i + 1) ≤ limbs * num_ops = mul-le-mul_left limbs (omega arith) in
    (
      omega (arith, total, all),
      omega (arith, some_routed, all_routed, next),
      omega (arith, next),
      omega (arith, next_limb, hj),
    )

min-le : (a b : ℕ) → (min a b ≤ a) × (min a b ≤ b)
min-le a b = (omega arith, omega arith)

-- For every operation and limb of the gate that is built for a configuration: the gate has no more
-- wires than the configuration, the last wire of the operation's inputs and outputs is routed, and
-- the wire of the limb comes after it and is one of the gate's.
pub wire_ith_inverse-new_from_config :
    (config : CircuitConfig) (i j : ℕ)
    → i < (Arithmetic.new_from_config config).num_ops
    → j < Arithmetic.num_limbs
    → let gate = Arithmetic.new_from_config config in
      (Arithmetic.num_wires gate ≤ config.num_wires)
      × (Arithmetic.wire_ith_inverse i < config.num_routed_wires)
      × (Arithmetic.wire_ith_inverse i < Arithmetic.wire_ith_output_jth_limb gate i j)
      × (Arithmetic.wire_ith_output_jth_limb gate i j < Arithmetic.num_wires gate)
unfolding Arithmetic.new_from_config Arithmetic.num_wires Arithmetic.wire_ith_inverse
    Arithmetic.wire_ith_output_jth_limb
wire_ith_inverse-new_from_config config i j hi hj =
    let n = (Arithmetic.new_from_config config).num_ops in
    let (a, b) = min-le (config.num_wires / 38) (config.num_routed_wires / 6) in
    let (w, x, y, z) = layout 6 32 n config.num_wires config.num_routed_wires i j a b hi hj in
    (omega (arith, w), omega (arith, x), omega (arith, y), omega (arith, z))

-- The same of the subtraction gate.
subtraction-wires :
    (config : CircuitConfig) (i j : ℕ)
    → i < (Subtraction.new_from_config config).num_ops
    → j < Subtraction.num_limbs
    → let gate = Subtraction.new_from_config config in
      (Subtraction.num_wires gate ≤ config.num_wires)
      × (Subtraction.wire_ith_output_borrow i < config.num_routed_wires)
      × (Subtraction.wire_ith_output_borrow i < Subtraction.wire_ith_output_jth_limb gate i j)
      × (Subtraction.wire_ith_output_jth_limb gate i j < Subtraction.num_wires gate)
unfolding Subtraction.new_from_config Subtraction.num_wires Subtraction.wire_ith_output_borrow
    Subtraction.wire_ith_output_jth_limb
subtraction-wires config i j hi hj =
    let n = (Subtraction.new_from_config config).num_ops in
    let (a, b) = min-le (config.num_wires / 21) (config.num_routed_wires / 5) in
    let (w, x, y, z) = layout 5 16 n config.num_wires config.num_routed_wires i j a b hi hj in
    (omega (arith, w), omega (arith, x), omega (arith, y), omega (arith, z))

abbrev built : Outcome AddMany.U32AddManyGate → ℕ × ℕ
built (ok gate) = (gate.num_addends, gate.num_ops)
built panic = (0, 0)
built stuck = (0, 0)

new_from_config-ok :
    (config : CircuitConfig) (num_addends : ℕ) (gate : AddMany.U32AddManyGate)
    → AddMany.new_from_config config num_addends ≡ ok gate
    → (num_addends ≤ 64)
      × (gate.num_addends ≡ num_addends)
      × (gate.num_ops
          ≡ min
              (config.num_wires / (num_addends + 3 + 19))
              (config.num_routed_wires / (num_addends + 3)))
unfolding AddMany.new_from_config
new_from_config-ok config num_addends gate e = elim (Bool-cases (leb num_addends 64)) [
  | inl t ↦
      let e' = rw t at e in
      (leb→le num_addends 64 t, ap (λ g. (built g).0) (sym e'), ap (λ g. (built g).1) (sym e'))
  | inr t ↦ let e' = rw t at e in absurd (cc e')
]

-- If a gate is built for a configuration, it has at most 64 addends; for every operation, addend and
-- limb: the gate has no more wires than the configuration, the addend's wire comes before the wires
-- of the operation's carry and outputs, the last of these is routed, and the wire of the limb comes
-- after it and is one of the gate's.
pub wire_ith_output_carry-new_from_config :
    (config : CircuitConfig) (num_addends : ℕ) (gate : AddMany.U32AddManyGate) (i j k : ℕ)
    → AddMany.new_from_config config num_addends ≡ ok gate
    → i < gate.num_ops
    → j < AddMany.num_limbs
    → k < gate.num_addends
    → (gate.num_addends ≤ 64)
      × (AddMany.num_wires gate ≤ config.num_wires)
      × (AddMany.wire_ith_op_jth_addend gate i k < AddMany.wire_ith_carry gate i)
      × (AddMany.wire_ith_carry gate i < AddMany.wire_ith_output_carry gate i)
      × (AddMany.wire_ith_output_carry gate i < config.num_routed_wires)
      × (AddMany.wire_ith_output_carry gate i < AddMany.wire_ith_output_jth_limb gate i j)
      × (AddMany.wire_ith_output_jth_limb gate i j < AddMany.num_wires gate)
unfolding AddMany.new_from_config AddMany.num_wires AddMany.wire_ith_op_jth_addend
    AddMany.wire_ith_carry AddMany.wire_ith_output_carry AddMany.wire_ith_output_jth_limb
wire_ith_output_carry-new_from_config config num_addends gate i j k e hi hj hk =
    let (few, same, ops) = new_from_config-ok config num_addends gate e in
    let routed = gate.num_addends + 3 in
    let (a, b) = min-le (config.num_wires / (routed + 19)) (config.num_routed_wires / routed) in
    let ops' : gate.num_ops
        ≡ min (config.num_wires / (routed + 19)) (config.num_routed_wires / routed) =
      ops
      ∙ ap (λ n. min (config.num_wires / (n + 3 + 19)) (config.num_routed_wires / (n + 3)))
          (sym same) in
    let (w, x, y, z) =
      layout routed 19 gate.num_ops config.num_wires config.num_routed_wires i j
        (omega (arith, a, ops')) (omega (arith, b, ops')) hi hj in
    (omega (arith, few, same), w, omega arith, omega arith, omega (arith, x), omega (arith, y), z)
