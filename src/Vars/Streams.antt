-- ===== src/Vars/Streams.antt =====
-- plonky2x/core/src/frontend/vars/stream.rs: streams of field elements and of variables, which hints
-- read their inputs from and write their outputs to. The operations of a `VariableStream` on variables
-- and those of a `ValueStream` on field elements are the same code; `write_values` is `write_slice` of
-- the first and stands for calls of `write_value`, one after another, of the second.
use succinctx.Prelude.{
  ℕ, zero, suc, ◌≡◌, refl, sym, ap, ◌∙◌, List, [], ◌∷◌, ◌++◌, append-nil, append_assoc, length,
  Outcome, ok, ◌>>=◌,
}
use succinctx.Stream.{Stream, read_exact, write_slice}
use succinctx.Stream.At.{at, read_exact-at}
use succinctx.Vars.Circuit.{CircuitVariable, IsLawful}
use succinctx.Vars.Collections.{array_elements}
use succinctx.Vars.Layout.{All}

module _ {F : Type 0} where
  unfoldable pub read_value : (V : CircuitVariable F) → Stream F → Outcome (V.Value × Stream F)
  read_value V stream = do
    (elements, stream') ← read_exact stream V.nb_elements
    value ← V.from_elements elements
    ok (value, stream')

  unfoldable pub read_vec :
      (V : CircuitVariable F) → ℕ → Stream F → Outcome (List V.Value × Stream F)
  unfolding read_value
  read_vec V zero stream = ok ([], stream)
  read_vec V (suc len) stream = do
    (value, stream') ← read_value V stream
    (values, stream'') ← read_vec V len stream'
    ok (value ∷ values, stream'')

  unfoldable pub write_value : (V : CircuitVariable F) → Stream F → V.Value → Stream F
  unfolding write_slice
  write_value V stream value = write_slice stream (V.elements value)

  unfoldable pub write_values : (V : CircuitVariable F) → Stream F → List V.Value → Stream F
  unfolding write_value
  write_values V stream [] = stream
  write_values V stream (value ∷ values) = write_values V (write_value V stream value) values

  pub read_value-at :
      (V : CircuitVariable F) (lawful : IsLawful V) (before after : List F) (value : V.Value)
      → lawful.IsValue value
      → read_value V (at before (V.elements value ++ after))
        ≡ ok (value, at (before ++ V.elements value) after)
  unfolding read_value
  read_value-at V lawful before after value valid =
      rw
        (
          ← lawful.length-elements value valid,
          read_exact-at before (V.elements value) after,
          lawful.from_elements-elements value valid,
        )
        refl

  pub read_vec-at :
      (V : CircuitVariable F) (lawful : IsLawful V) (before after : List F) (values : List V.Value)
      → All lawful.IsValue values
      → read_vec V (length values) (at before (array_elements V values ++ after))
        ≡ ok (values, at (before ++ array_elements V values) after)
  unfolding read_vec array_elements
  read_vec-at V lawful before after [] valid =
      ap (λ l. ok ([], at l after)) (sym (append-nil before))
  read_vec-at V lawful before after (v ∷ values) valid =
      let xs = V.elements v in
      let ys = array_elements V values in
      rw
        (
          append_assoc xs ys after,
          read_value-at V lawful before (ys ++ after) v valid.0,
          read_vec-at V lawful (before ++ xs) after values valid.1,
          append_assoc before xs ys,
        )
        refl

  write_values-elements :
      (V : CircuitVariable F) (stream : Stream F) (values : List V.Value)
      → write_values V stream values ≡ write_slice stream (array_elements V values)
  unfolding write_values write_slice array_elements
  write_values-elements V stream [] =
      ap (λ l. record stream { contents = l }) (sym (append-nil stream.contents))
  write_values-elements V stream (v ∷ values) =
      write_values-elements V (write_value V stream v) values
      ∙ ap (λ l. record stream { contents = l })
          (append_assoc stream.contents (V.elements v) (array_elements V values))

  -- For a layout that reads back what it lays out (IsLawful) and values of the right shape: as many
  -- values as are written to a stream of which all is read are read back, and then all is read again.
  pub read_vec-write_values :
      (V : CircuitVariable F) (lawful : IsLawful V) (contents : List F) (values : List V.Value)
      → All lawful.IsValue values
      → read_vec V (length values) (write_values V (at contents []) values)
        ≡ ok (values, at (contents ++ array_elements V values) [])
  unfolding write_slice
  read_vec-write_values V lawful contents values valid =
      let ys = array_elements V values in
      let written : write_values V (at contents []) values ≡ at contents (ys ++ []) =
        write_values-elements V (at contents []) values
        ∙ ap (λ l. record { contents = l; position = length contents })
            (append_assoc contents [] ys ∙ ap (λ l. contents ++ l) (sym (append-nil ys))) in
      ap (read_vec V (length values)) written ∙ read_vec-at V lawful contents [] values valid
