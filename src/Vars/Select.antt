-- ===== src/Vars/Select.antt =====
-- The element that `select_array` of Vars/Subarray.antt returns, for every selector.
use succinctx.Prelude.{
  ℕ, zero, suc, ◌+◌, ◌≤◌, ◌<◌, ◌≡◌, refl, ap, ◌∙◌, ◌↔◌, Bool, true, false, List, [], ◌∷◌, arith,
  length, get_or, ok,
}
use succinctx.Gates.Field.{Field, order, IsDomain}
use succinctx.Vars.Subarray.{select_loop, select_array}
use succinctx.Vars.SubarraySound.{same_index}

module _ (f : Field) (is_equal : f.F → f.F → Bool)
    (is_equal_iff : (a b : f.F) → (is_equal a b ≡ true) ↔ (a ≡ b)) (domain : IsDomain f) where
  open f use {from_canonical}

  select_loop_past :
      {A : Type 0} (s i : ℕ) (xs : List A) (a : A)
      → s < i
      → i + length xs ≤ order
      → select_loop f is_equal (from_canonical s) i xs a ≡ a
  unfolding select_loop
  select_loop_past s i [] a h h' = refl
  select_loop_past s i (x ∷ xs) a h h' =
      let other : is_equal (from_canonical i) (from_canonical s) ≡ false =
        same_index f is_equal is_equal_iff domain i s (omega arith) (omega arith) ∙ ground arith in
      rw other (select_loop_past s (i + 1) xs a (omega arith) (omega arith))

  select_loop-get_or :
      {A : Type 0} (k i : ℕ) (xs : List A) (a : A)
      → i + length xs ≤ order
      → i + k < order
      → select_loop f is_equal (from_canonical (i + k)) i xs a ≡ get_or xs k a
  unfolding select_loop
  select_loop-get_or k i [] a h h' = refl
  select_loop-get_or zero i (x ∷ xs) a h h' =
      let here : is_equal (from_canonical i) (from_canonical (i + 0)) ≡ true =
        same_index f is_equal is_equal_iff domain i (i + 0) (omega arith) (omega arith)
        ∙ ground arith in
      rw here (select_loop_past (i + 0) (i + 1) xs x (omega arith) (omega arith))
  select_loop-get_or (suc k) i (x ∷ xs) a h h' =
      let other : is_equal (from_canonical i) (from_canonical (i + suc k)) ≡ false =
        same_index f is_equal is_equal_iff domain i (i + suc k) (omega arith) (omega arith)
        ∙ ground arith in
      let next : i + suc k ≡ i + 1 + k = omega arith in
      rw other (
        ap (λ j. select_loop f is_equal (from_canonical j) (i + 1) xs a) next
        ∙ select_loop-get_or k (i + 1) xs a (omega arith) (omega arith))

  -- The selection from an array that is not empty gives the element at the selector, and the first
  -- element if the selector lies outside of the array.
  pub select_array-get_or :
      {A : Type 0} (s : ℕ) (x : A) (xs : List A)
      → 1 + length xs ≤ order
      → s < order
      → select_array f is_equal (x ∷ xs) (from_canonical s) ≡ ok (get_or (x ∷ xs) s x)
  unfolding select_array
  select_array-get_or s x xs h h' =
      let start : s ≡ 0 + s = omega arith in
      ap (λ k. ok (select_loop f is_equal (from_canonical k) 0 (x ∷ xs) x)) start
      ∙ ap ok (select_loop-get_or s 0 (x ∷ xs) x (omega arith) (omega arith))
