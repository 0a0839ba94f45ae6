-- ===== src/Vars/Extractor.antt =====
-- plonky2x/core/src/frontend/vars/array.rs: the hint that finds a subarray, on what
-- `get_fixed_subarray` writes to its input. `V` is the layout of a byte.
use succinctx.Prelude.{
  index, ℕ, zero, suc, ◌+◌, ◌≤◌, ◌<◌, ◌≡◌, refl, sym, ap, ◌∙◌, inl, inr, List, [], ◌∷◌, arith, leb,
  if◌then◌else◌, Bool-cases, length, drop, Outcome, ok, panic, ◌>>=◌, ◌>>◌, ensure,
}
use succinctx.Gates.Field.{Field, order}
use succinctx.Gates.Generator.{Canonical}
use succinctx.Stream.{Stream, new}
use succinctx.Vars.Circuit.{CircuitVariable, IsLawful}
use succinctx.Vars.Collections.{variable, variable-IsLawful, array, array_elements}
use succinctx.Vars.Layout.{All, part}
use succinctx.Vars.Streams.{
  read_value, read_vec, write_value, write_values, read_value-at, read_vec-at,
}

module _ (f : Field) (canonical : Canonical f) (V : CircuitVariable f.F) where
  open f use {F, from_canonical}

  -- The bytes that are still to be written, from number `i` on.
  unfoldable pub output_loop : List V.Value → ℕ → ℕ → Stream F → Outcome (Stream F)
  unfolding write_value
  output_loop elements zero i output_stream = ok output_stream
  output_loop elements (suc left) i output_stream = do
    element ← index elements i
    output_loop elements left (i + 1) (write_value V output_stream element)

  unfoldable pub hint : ℕ → ℕ → Stream F → Stream F → Outcome (Stream F)
  unfolding output_loop read_vec read_value
  hint array_size sub_array_size input_stream output_stream = do
    (elements, input_stream') ← read_vec V array_size input_stream
    (start, input_stream'') ← read_value variable input_stream'
    let start_idx = canonical.to_canonical_u64 start
    ensure (leb (start_idx + sub_array_size) array_size)
    output_loop elements sub_array_size start_idx output_stream

  -- The stream that `get_fixed_subarray` writes.
  unfoldable pub hint_input : List V.Value → F → Stream F
  unfolding write_value
  hint_input elements start_idx =
      write_value variable (write_value (array V (length elements)) (new []) elements) start_idx

  index-drop :
      (i : ℕ) (xs : List V.Value)
      → i < length xs
      → (x : V.Value) × (index xs i ≡ ok x) × (drop i xs ≡ x ∷ drop (i + 1) xs)
  index-drop i [] h = absurd (omega arith)
  index-drop zero (x ∷ xs) h = (x, refl, refl)
  index-drop (suc i) (x ∷ xs) h =
      let (y, e, d) = index-drop i xs (omega arith) in
      let next : suc i + 1 ≡ suc (i + 1) = omega arith in
      (y, e, d ∙ ap (λ k. y ∷ drop k (x ∷ xs)) (sym next))

  output_loop-part :
      (i n : ℕ) (elements : List V.Value) (output : Stream F)
      → i + n ≤ length elements
      → output_loop elements n i output ≡ ok (write_values V output (part elements i n))
  unfolding output_loop write_values
  output_loop-part i zero elements output h = refl
  output_loop-part i (suc n) elements output h =
      let (x, e, d) = index-drop i elements (omega arith) in
      rw (e, d) (output_loop-part (i + 1) n elements (write_value V output x) (omega arith))

  -- For a layout that reads back what it lays out (IsLawful), as that of a byte does, an array of values
  -- of the right shape and a start index below the order of the field: the hint writes the part that
  -- the check asks for, and panics if that part does not lie within the array.
  pub hint-part :
      (lawful : IsLawful V) (elements : List V.Value) (s n : ℕ) (output : Stream F)
      → All lawful.IsValue elements
      → s < order
      → hint (length elements) n (hint_input elements (from_canonical s)) output ≡ (
          if leb (s + n) (length elements)
          then ok (write_values V output (part elements s n))
          else panic)
  unfolding hint hint_input
  hint-part lawful elements s n output valid h =
      let xs = array_elements V elements in
      let tail = from_canonical s ∷ [] in
      rw
        (
          read_vec-at V lawful [] tail elements valid,
          read_value-at variable variable-IsLawful xs [] (from_canonical s) tt,
          canonical.to-from s h,
        )
        (elim (Bool-cases (leb (s + n) (length elements))) [
          | inl e ↦ rw e (output_loop-part s n elements output (ground arith))
          | inr e ↦ rw e refl
        ])
