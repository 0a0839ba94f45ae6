-- ===== src/Vars/Circuit.antt =====
-- plonky2x/core/src/frontend/vars/mod.rs: how a value is laid out as field elements, and a variable
-- as plonky2's variables. `F` is the field in the first case and the type of variables in the second
-- (`variables`, `from_variables_unsafe`): the code of the two is the same.
use succinctx.Prelude.{
  ℕ, ◌≡◌, refl, sym, ap, ap₂, ◌∙◌, true, List, [], ◌∷◌, map, arith, ◌==◌, length, Outcome, ok, ◌>>◌,
  ensure,
}

pub record CircuitVariable (F : Type 0) : Type 1 where
  pub Value : Type 0
  pub nb_elements : ℕ
  pub elements : Value → List F
  pub from_elements : List F → Outcome Value

-- A layout that reads the values back that it lays out. `IsValue` says which values have the shape
-- that the type asks for.
pub record IsLawful {F : Type 0} (V : CircuitVariable F) : Type 1 where
  pub IsValue : V.Value → Type 0
  pub length-elements : (v : V.Value) → IsValue v → length (V.elements v) ≡ V.nb_elements
  pub from_elements-elements : (v : V.Value) → IsValue v → V.from_elements (V.elements v) ≡ ok v

-- A layout that asserts the number of elements that it is read from. The implementations for variables,
-- booleans and arrays do; those for bytes, integers and derived structs do not.
abbrev pub ChecksLength : {F : Type 0} → CircuitVariable F → Type 0
ChecksLength {F} V =
    (xs : List F) (v : V.Value) → V.from_elements xs ≡ ok v → length xs ≡ V.nb_elements

module _ {F Target : Type 0} where
  -- `set` on the targets of a variable: the writes to the witness, one after another.
  unfoldable pub set_loop : List F → List Target → List (Target × F)
  set_loop [] targets = []
  set_loop (e ∷ elements) [] = []
  set_loop (e ∷ elements) (t ∷ targets) = (t, e) ∷ set_loop elements targets

  unfoldable pub set_value :
      (V : CircuitVariable F) → List Target → V.Value → Outcome (List (Target × F))
  unfolding set_loop
  set_value V targets value = do
    ensure (length (V.elements value) == length targets)
    ok (set_loop (V.elements value) targets)

  unfoldable pub get_value : (V : CircuitVariable F) → List Target → (Target → F) → Outcome V.Value
  get_value V targets witness = V.from_elements (map witness targets)

  -- A witness that has the written values.
  abbrev pub Has : (Target → F) → List (Target × F) → Type 0
  Has witness [] = Unit {0}
  Has witness (write ∷ writes) = (witness write.0 ≡ write.1) × Has witness writes

  set_loop-Has :
      (witness : Target → F) (elements : List F) (targets : List Target)
      → length elements ≡ length targets
      → Has witness (set_loop elements targets)
      → map witness targets ≡ elements
  unfolding set_loop
  set_loop-Has witness [] [] l h = refl
  set_loop-Has witness [] (t ∷ targets) l h = absurd (omega arith)
  set_loop-Has witness (e ∷ elements) [] l h = absurd (omega arith)
  set_loop-Has witness (e ∷ elements) (t ∷ targets) l h =
      ap₂ (λ x xs. x ∷ xs) h.0 (set_loop-Has witness elements targets (omega arith) h.1)

  -- For a layout that reads back what it lays out (IsLawful), a value of the right shape and as many
  -- targets as it has elements: `set` does not panic, and in every witness that has what `set` writes,
  -- `get` reads the value.
  pub get_value-set_value :
      (V : CircuitVariable F) (lawful : IsLawful V) (targets : List Target) (value : V.Value)
      (witness : Target → F)
      → lawful.IsValue value
      → length targets ≡ V.nb_elements
      → (writes : List (Target × F)) × (set_value V targets value ≡ ok writes)
        × (Has witness writes → get_value V targets witness ≡ ok value)
  unfolding set_value get_value
  get_value-set_value V lawful targets value witness valid l =
      let n = lawful.length-elements value valid in
      let same : (length (V.elements value) == length targets) ≡ true = ground arith in
      (
        set_loop (V.elements value) targets,
        rw same,
        λ h.
            ap V.from_elements (set_loop-Has witness (V.elements value) targets (n ∙ sym l) h)
            ∙ lawful.from_elements-elements value valid,
      )
