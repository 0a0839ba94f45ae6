-- ===== src/Vars/Tuple.antt =====
-- plonky2x/core/src/frontend/vars/collections.rs, tuples of two, three, four and five variables, and
-- plonky2x/derive/src/elements.rs, structs that derive `CircuitVariable`. A tuple or a struct is the
-- list of the variables that it is made of.
use succinctx.Prelude.{
  ℕ, ◌+◌, List, [], ◌∷◌, ◌++◌, ◌==◌, length, take, drop, Outcome, ok, ◌>>=◌, ◌>>◌, ensure,
}
use succinctx.Io.Public.{slice_to}
use succinctx.Vars.Circuit.{CircuitVariable, IsLawful}

module _ {F : Type 0} where
  abbrev pub Values : List (CircuitVariable F) → Type 0
  Values [] = Unit {0}
  Values (V ∷ Vs) = V.Value × Values Vs

  unfoldable pub nb_elements : List (CircuitVariable F) → ℕ
  nb_elements [] = 0
  nb_elements (V ∷ Vs) = V.nb_elements + nb_elements Vs

  unfoldable pub elements : (Vs : List (CircuitVariable F)) → Values Vs → List F
  elements [] values = []
  elements (V ∷ Vs) values = V.elements values.0 ++ elements Vs values.1

  -- A member of a struct takes a slice of its own length.
  unfoldable pub struct_from_elements :
      (Vs : List (CircuitVariable F)) → List F → Outcome (Values Vs)
  struct_from_elements [] xs = ok tt
  struct_from_elements (V ∷ Vs) xs = do
    slice ← slice_to xs V.nb_elements
    value ← V.from_elements slice
    values ← struct_from_elements Vs (drop V.nb_elements xs)
    ok (value, values)

  -- A struct that derives `CircuitVariable`.
  abbrev pub struct : List (CircuitVariable F) → CircuitVariable F
  struct Vs = record {
    Value = Values Vs;
    nb_elements = nb_elements Vs;
    elements = elements Vs;
    from_elements = struct_from_elements Vs;
  }

  -- The members of a tuple after the first: each takes all elements from its offset on.
  unfoldable pub tails_from_elements :
      (Vs : List (CircuitVariable F)) → List F → Outcome (Values Vs)
  tails_from_elements [] xs = ok tt
  tails_from_elements (V ∷ Vs) xs = do
    value ← V.from_elements xs
    values ← tails_from_elements Vs (drop V.nb_elements xs)
    ok (value, values)

  unfoldable pub tuple_from_elements :
      (V : CircuitVariable F) (Vs : List (CircuitVariable F)) → List F → Outcome (Values (V ∷ Vs))
  unfolding nb_elements tails_from_elements
  tuple_from_elements V Vs xs = do
    ensure (length xs == nb_elements (V ∷ Vs))
    value ← V.from_elements (take V.nb_elements xs)
    values ← tails_from_elements Vs (drop V.nb_elements xs)
    ok (value, values)

  -- `from_variables_unsafe` of a tuple: `F` is the type of variables here.
  unfoldable pub tuple_from_variables :
      (Vs : List (CircuitVariable F)) → List F → Outcome (Values Vs)
  unfolding nb_elements struct_from_elements
  tuple_from_variables Vs xs = do ensure (length xs == nb_elements Vs); struct_from_elements Vs xs

  abbrev pub AreLawful : List (CircuitVariable F) → Type 1
  AreLawful [] = Unit {1}
  AreLawful (V ∷ Vs) = IsLawful V × AreLawful Vs

  abbrev pub AreValues : (Vs : List (CircuitVariable F)) → AreLawful Vs → Values Vs → Type 0
  AreValues [] lawful values = Unit {0}
  AreValues (V ∷ Vs) lawful values =
      let first = lawful.0 in first.IsValue values.0 × AreValues Vs lawful.1 values.1
