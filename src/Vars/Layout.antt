-- ===== src/Vars/Layout.antt =====
-- Which layouts of Vars/Collections.antt and Vars/Tuple.antt are read back as what was written.
use succinctx.Prelude.{
  ℕ, ◌+◌, ◌*◌, ◌<◌, ◌≡◌, refl, sym, ap, ◌∙◌, ◌≢◌, inl, inr, true, List, [], ◌∷◌, ◌++◌, append-nil,
  append_assoc, arith, ◌==◌, le→ltb_false, Bool-cases, length, length-append, take, drop,
  length-drop, ok, >>=-eq-ok, ensure-eq-ok,
}
use succinctx.Io.Public.{slice_to}
use succinctx.Stream.At.{take-append, drop-append}
use succinctx.Vars.Circuit.{CircuitVariable, IsLawful, ChecksLength}
use succinctx.Vars.Collections.{array, array_loop, array_elements, array_from_elements}
use succinctx.Vars.Tuple.{
  Values, struct, nb_elements, elements, struct_from_elements, tails_from_elements,
  tuple_from_elements, tuple_from_variables, AreLawful, AreValues,
}

-- Every member of a list has a property.
abbrev pub All : {A : Type 0} → (A → Type 0) → List A → Type 0
All P [] = Unit {0}
All P (x ∷ xs) = P x × All P xs

-- The elements from number `s` on, `n` of them or as many as there are.
abbrev pub part : {A : Type 0} → List A → ℕ → ℕ → List A
part array s n = take n (drop s array)

module _ {F : Type 0} where
  pub length-elements :
      (Vs : List (CircuitVariable F)) (lawful : AreLawful Vs) (values : Values Vs)
      → AreValues Vs lawful values
      → length (elements Vs values) ≡ nb_elements Vs
  unfolding elements nb_elements
  length-elements [] lawful values valid = refl
  length-elements (V ∷ Vs) lawful values valid =
      let first = lawful.0 in
      let e = first.length-elements values.0 valid.0 in
      let rest = length-elements Vs lawful.1 values.1 valid.1 in
      let sum = length-append (V.elements values.0) (elements Vs values.1) in omega arith

  -- A slice of the length of a list is that list.
  slice_to-append : (xs ys : List F) (n : ℕ) → length xs ≡ n → slice_to (xs ++ ys) n ≡ ok xs
  unfolding slice_to
  slice_to-append xs ys n e =
      let l = length-append xs ys in
      let taken : take n (xs ++ ys) ≡ xs =
        ap (λ k. take k (xs ++ ys)) (sym e) ∙ take-append xs ys in
      rw (le→ltb_false (length (xs ++ ys)) n (omega arith), taken) refl

  drop-append_eq : (xs ys : List F) (n : ℕ) → length xs ≡ n → drop n (xs ++ ys) ≡ ys
  drop-append_eq xs ys n e = ap (λ k. drop k (xs ++ ys)) (sym e) ∙ drop-append xs ys

  -- A struct of lawful variables is read back from its elements, whatever follows them.
  pub struct_from_elements-elements :
      (Vs : List (CircuitVariable F)) (lawful : AreLawful Vs) (values : Values Vs) (rest : List F)
      → AreValues Vs lawful values
      → struct_from_elements Vs (elements Vs values ++ rest) ≡ ok values
  unfolding struct_from_elements elements
  struct_from_elements-elements [] lawful values rest valid = refl
  struct_from_elements-elements (V ∷ Vs) lawful values rest valid =
      let first = lawful.0 in
      let xs = V.elements values.0 in
      let ys = elements Vs values.1 in
      let n = first.length-elements values.0 valid.0 in
      rw
        (
          append_assoc xs ys rest,
          slice_to-append xs (ys ++ rest) V.nb_elements n,
          first.from_elements-elements values.0 valid.0,
          drop-append_eq xs (ys ++ rest) V.nb_elements n,
          struct_from_elements-elements Vs lawful.1 values.1 rest valid.1,
        )
        refl

  -- So is a tuple of variables from its variables.
  pub tuple_from_variables-elements :
      (Vs : List (CircuitVariable F)) (lawful : AreLawful Vs) (values : Values Vs)
      → AreValues Vs lawful values
      → tuple_from_variables Vs (elements Vs values) ≡ ok values
  unfolding tuple_from_variables
  tuple_from_variables-elements Vs lawful values valid =
      let same : (length (elements Vs values) == nb_elements Vs) ≡ true =
        ground (arith, length-elements Vs lawful values valid) in
      let back = struct_from_elements-elements Vs lawful values [] valid in
      rw same (ap (struct_from_elements Vs) (sym (append-nil (elements Vs values))) ∙ back)

  -- And a pair of values from its elements.
  pub tuple_from_elements-elements :
      (V W : CircuitVariable F) (lawful : AreLawful (V ∷ W ∷ [])) (values : Values (V ∷ W ∷ []))
      → AreValues (V ∷ W ∷ []) lawful values
      → tuple_from_elements V (W ∷ []) (elements (V ∷ W ∷ []) values) ≡ ok values
  unfolding tuple_from_elements elements
  tuple_from_elements-elements V W lawful values valid =
      let first = lawful.0 in
      let second = lawful.1.0 in
      let xs = V.elements values.0 in
      let ys = W.elements values.1.0 in
      let n = first.length-elements values.0 valid.0 in
      let m = second.length-elements values.1.0 valid.1.0 in
      let whole = length-append xs ys in
      let same : (length (xs ++ ys) == V.nb_elements + (W.nb_elements + 0)) ≡ true = ground arith in
      let taken : take V.nb_elements (xs ++ ys) ≡ xs =
        ap (λ k. take k (xs ++ ys)) (sym n) ∙ take-append xs ys in
      rw
        (
          append-nil ys,
          same,
          taken,
          first.from_elements-elements values.0 valid.0,
          drop-append_eq xs ys V.nb_elements n,
          second.from_elements-elements values.1.0 valid.1.0,
        )
        refl

  tails_from_elements-ne-ok :
      (Us : List (CircuitVariable F)) (W : CircuitVariable F) (Vs : List (CircuitVariable F))
      (xs : List F) (values : Values (Us ++ W ∷ Vs))
      → ChecksLength W
      → 0 < nb_elements Vs
      → length xs ≡ nb_elements (Us ++ W ∷ Vs)
      → tails_from_elements (Us ++ W ∷ Vs) xs ≢ ok values
  unfolding tails_from_elements nb_elements
  tails_from_elements-ne-ok [] W Vs xs values checks more l e =
      let (value, p, q) = >>=-eq-ok (W.from_elements xs) _ e in
      absurd (omega (arith, checks xs value p))
  tails_from_elements-ne-ok (U ∷ Us) W Vs xs values checks more l e =
      let rest = drop U.nb_elements xs in
      let (value, p, q) = >>=-eq-ok (U.from_elements xs) _ e in
      let (values', r, s) = >>=-eq-ok (tails_from_elements (Us ++ W ∷ Vs) rest) _ q in
      tails_from_elements-ne-ok Us W Vs rest values' checks more
        (omega (arith, length-drop U.nb_elements xs)) r

  -- A tuple is never read from elements if a member `W` that is neither the first nor followed only by
  -- members without elements asserts its length (ChecksLength): `W` is given the elements of the
  -- members after it as well.
  pub tuple_from_elements-ne-ok :
      (V : CircuitVariable F) (Us : List (CircuitVariable F)) (W : CircuitVariable F)
      (Vs : List (CircuitVariable F)) (xs : List F) (values : Values (V ∷ (Us ++ W ∷ Vs)))
      → ChecksLength W
      → 0 < nb_elements Vs
      → tuple_from_elements V (Us ++ W ∷ Vs) xs ≢ ok values
  unfolding tuple_from_elements
  tuple_from_elements-ne-ok V Us W Vs xs values checks more e =
      let members = Us ++ W ∷ Vs in
      let (same, counted) = ensure-eq-ok (length xs == V.nb_elements + nb_elements members) _ e in
      let rest = drop V.nb_elements xs in
      let (value, p, q) = >>=-eq-ok (V.from_elements (take V.nb_elements xs)) _ counted in
      let (values', r, s) = >>=-eq-ok (tails_from_elements members rest) _ q in
      tails_from_elements-ne-ok Us W Vs rest values' checks more
        (ground (arith, length-drop V.nb_elements xs)) r

  -- So a struct is a layout that its members make lawful.
  abbrev pub struct-IsLawful : (Vs : List (CircuitVariable F)) → AreLawful Vs → IsLawful (struct Vs)
  struct-IsLawful Vs lawful = record {
    IsValue = AreValues Vs lawful;
    length-elements = λ values valid. length-elements Vs lawful values valid;
    from_elements-elements = λ values valid.
        ap (struct_from_elements Vs) (sym (append-nil (elements Vs values)))
        ∙ struct_from_elements-elements Vs lawful values [] valid;
  }

  array_loop-elements :
      (V : CircuitVariable F) (lawful : IsLawful V) (before : List F) (values : List V.Value)
      (i : ℕ)
      → length before ≡ i * V.nb_elements
      → All lawful.IsValue values
      → array_loop V (length values) i (before ++ array_elements V values) ≡ ok values
  unfolding array_loop array_elements
  array_loop-elements V lawful before [] i l valid = refl
  array_loop-elements V lawful before (v ∷ values) i l valid =
      let xs = V.elements v in
      let ys = array_elements V values in
      let n = lawful.length-elements v valid.0 in
      let taken : take V.nb_elements (xs ++ ys) ≡ xs =
        ap (λ k. take k (xs ++ ys)) (sym n) ∙ take-append xs ys in
      let next : length (before ++ xs) ≡ (i + 1) * V.nb_elements =
        omega (arith, length-append before xs, n, l) in
      rw
        (
          drop-append_eq before (xs ++ ys) (i * V.nb_elements) l,
          taken,
          lawful.from_elements-elements v valid.0,
          ← append_assoc before xs ys,
          array_loop-elements V lawful (before ++ xs) values (i + 1) next valid.1,
        )
        refl

  pub length-array_elements :
      (V : CircuitVariable F) (lawful : IsLawful V) (values : List V.Value)
      → All lawful.IsValue values
      → length (array_elements V values) ≡ length values * V.nb_elements
  unfolding array_elements
  length-array_elements V lawful [] valid = omega arith
  length-array_elements V lawful (v ∷ values) valid =
      let n = lawful.length-elements v valid.0 in
      let e = length-append (V.elements v) (array_elements V values) in
      let rest = length-array_elements V lawful values valid.1 in omega arith

  pub array-ChecksLength : (V : CircuitVariable F) (n : ℕ) → ChecksLength (array V n)
  unfolding array_from_elements
  array-ChecksLength V n xs values e = elim (Bool-cases (length xs == n * V.nb_elements)) [
    | inl same ↦ ground arith
    | inr fails ↦ absurd (cc (rw fails at e))
  ]

  -- An array of `n` lawful values is read back from its elements.
  pub array_from_elements-elements :
      (V : CircuitVariable F) (lawful : IsLawful V) (n : ℕ) (values : List V.Value)
      → length values ≡ n
      → All lawful.IsValue values
      → array_from_elements V n (array_elements V values) ≡ ok values
  unfolding array_from_elements
  array_from_elements-elements V lawful n values l valid =
      let same : (length (array_elements V values) == n * V.nb_elements) ≡ true =
        ground (arith, length-array_elements V lawful values valid) in
      rw (same, ← l) (array_loop-elements V lawful [] values 0 (omega arith) valid)

  abbrev pub array-IsLawful : (V : CircuitVariable F) → IsLawful V → (n : ℕ) → IsLawful (array V n)
  array-IsLawful V lawful n = record {
    IsValue = λ values. (length values ≡ n) × All lawful.IsValue values;
    length-elements = λ values valid.
        length-array_elements V lawful values valid.1 ∙ ap (λ k. k * V.nb_elements) valid.0;
    from_elements-elements =
        λ values valid. array_from_elements-elements V lawful n values valid.0 valid.1;
  }
