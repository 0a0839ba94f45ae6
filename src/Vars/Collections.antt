-- ===== src/Vars/Collections.antt =====
-- The layouts of plonky2x/core/src/frontend/vars: a variable (variable.rs), a boolean (boolean.rs),
-- an array (array.rs) and a unit (collections.rs).
use succinctx.Prelude.{
  ℕ, zero, suc, ◌+◌, ◌*◌, ◌≡◌, refl, ap, Bool, List, [], ◌∷◌, map, ◌==◌, length, take, drop,
  Outcome, ok, panic, ◌>>=◌, ◌>>◌, ensure, >>=-eq-ok,
}
use succinctx.Io.Schema.{flat_map}
use succinctx.Vars.Circuit.{CircuitVariable, IsLawful, ChecksLength}

module _ {F : Type 0} where
  unfoldable pub variable_from_elements : List F → Outcome F
  variable_from_elements [] = panic
  variable_from_elements (x ∷ []) = ok x
  variable_from_elements (x ∷ y ∷ xs) = panic

  abbrev pub variable : CircuitVariable F
  variable = record {
    Value = F;
    nb_elements = 1;
    elements = λ v. v ∷ [];
    from_elements = variable_from_elements;
  }

  pub variable-ChecksLength : ChecksLength variable
  unfolding variable_from_elements
  variable-ChecksLength [] v e = cc
  variable-ChecksLength (x ∷ []) v e = refl
  variable-ChecksLength (x ∷ y ∷ xs) v e = cc

  pub variable_back : (v : F) → variable_from_elements (v ∷ []) ≡ ok v
  unfolding variable_from_elements
  variable_back v = refl

  abbrev pub variable-IsLawful : IsLawful variable
  variable-IsLawful = record {
    IsValue = λ v. Unit {0};
    length-elements = λ v valid. refl;
    from_elements-elements = λ v valid. variable_back v;
  }

  -- `from_canonical_u64` and the test for `F::ONE` are the field's.
  module _ (from_bool : Bool → F) (is_one : F → Bool) where
    unfoldable pub bool_from_elements : List F → Outcome Bool
    unfolding variable_from_elements
    bool_from_elements elements = do x ← variable_from_elements elements; ok (is_one x)

    abbrev pub boolean : CircuitVariable F
    boolean = record {
      Value = Bool;
      nb_elements = 1;
      elements = λ v. from_bool v ∷ [];
      from_elements = bool_from_elements;
    }

    pub boolean-ChecksLength : ChecksLength boolean
    unfolding bool_from_elements
    boolean-ChecksLength xs v e =
        let (x, p, q) = >>=-eq-ok (variable_from_elements xs) _ e in variable-ChecksLength xs x p

    pub bool_back :
        (v : Bool) → is_one (from_bool v) ≡ v → bool_from_elements (from_bool v ∷ []) ≡ ok v
    unfolding bool_from_elements
    bool_back v e = ap ok e

    abbrev pub boolean-IsLawful : ((b : Bool) → is_one (from_bool b) ≡ b) → IsLawful boolean
    boolean-IsLawful one = record {
      IsValue = λ v. Unit {0};
      length-elements = λ v valid. refl;
      from_elements-elements = λ v valid. bool_back v (one v);
    }

  unfoldable pub unit_from_elements : List F → Outcome (Unit {0})
  unit_from_elements [] = ok tt
  unit_from_elements (x ∷ xs) = panic

  abbrev pub unit : CircuitVariable F
  unit = record {
    Value = Unit {0};
    nb_elements = 0;
    elements = λ v. [];
    from_elements = unit_from_elements;
  }

  -- The elements of an array from number `i` on, `left` of them.
  unfoldable pub array_loop : (V : CircuitVariable F) → ℕ → ℕ → List F → Outcome (List V.Value)
  array_loop V zero i elements = ok []
  array_loop V (suc left) i elements = do
    value ← V.from_elements (take V.nb_elements (drop (i * V.nb_elements) elements))
    values ← array_loop V left (i + 1) elements
    ok (value ∷ values)

  unfoldable pub array_from_elements : (V : CircuitVariable F) → ℕ → List F → Outcome (List V.Value)
  unfolding array_loop
  array_from_elements V n elements = do
    ensure (length elements == n * V.nb_elements)
    array_loop V n 0 elements

  unfoldable pub array_elements : (V : CircuitVariable F) → List V.Value → List F
  unfolding flat_map
  array_elements V values = flat_map (map V.elements values)

  abbrev pub array : CircuitVariable F → ℕ → CircuitVariable F
  array V n = record {
    Value = List V.Value;
    nb_elements = n * V.nb_elements;
    elements = array_elements V;
    from_elements = array_from_elements V n;
  }
