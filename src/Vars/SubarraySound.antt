-- ===== src/Vars/SubarraySound.antt =====
-- The loop of Vars/Subarray.antt before, inside and after the subarray.
use succinctx.Prelude.{
  ℕ, suc, ◌+◌, ◌≤◌, ◌<◌, ◌≡◌, refl, sym, ap, ◌∙◌, ◌↔◌, ◌⊎◌, inl, inr, Bool, true, false, List, [],
  ◌∷◌, ◌++◌, append-nil, arith, ◌==◌, if◌then◌else◌, ==_refl, ==_iff, Bool-cases, length,
}
use succinctx.Gates.Field.{Field, order, IsDomain}
use succinctx.Vars.Subarray.{
  Extraction, bool_variable, is_within, extraction_update, extraction_step, extraction_loop,
  subarray_loop,
}

module _ (f : Field) (is_equal : f.F → f.F → Bool)
    (is_equal_iff : (a b : f.F) → (is_equal a b ≡ true) ↔ (a ≡ b)) (domain : IsDomain f) where
  open f use {F, zero_f, one_f, add, mul, from_canonical}

  pub same_index :
      (m n : ℕ) → m < order → n < order → is_equal (from_canonical m) (from_canonical n) ≡ (m == n)
  same_index m n h h' = elim (Bool-cases (m == n)) [
    | inl e ↦ e' e
    | inr e ↦ elim (Bool-cases (is_equal (from_canonical m) (from_canonical n))) [
      | inl p ↦ absurd (ground (arith, domain.injective m n h h' ((is_equal_iff _ _).0 p)))
      | inr p ↦ p ∙ sym e
    ]
  ]
    where
      e' : (m == n) ≡ true → is_equal (from_canonical m) (from_canonical n) ≡ (m == n)
      e' e = (is_equal_iff _ _).1 (ap from_canonical ((==_iff m n).0 e)) ∙ sym e

  add_zero : (a : F) → add a zero_f ≡ a
  add_zero a = f.add_comm a zero_f ∙ f.zero_add a

  mul_one : (a : F) → mul a one_f ≡ a
  mul_one a = f.mul_comm a one_f ∙ f.one_mul a

  zero_mul : (a : F) → mul zero_f a ≡ zero_f
  zero_mul a = f.mul_comm zero_f a ∙ f.mul_zero a

  either : (b : Bool) → (if b then true else true) ≡ true
  either true = refl
  either false = refl

  same_branches : (b : Bool) → (if b then false else false) ≡ false
  same_branches true = refl
  same_branches false = refl

  module _ (c : F) where
    outside_update :
        (x : F) (state : Extraction f is_equal)
        → extraction_update f is_equal c x state false ≡ record state { within_sub_array = false }
    unfolding extraction_update bool_variable
    outside_update x state =
        rw
          (
            add_zero state.subarray_size,
            mul_one state.r,
            zero_mul (mul state.r x),
            add_zero state.accumulator,
          )
          refl

    -- Outside of the subarray a step changes nothing.
    outside_step :
        (start end : F) (j : ℕ) (x : F) (state : Extraction f is_equal)
        → state.within_sub_array ≡ false
        → is_equal (from_canonical j) start ≡ false
        → extraction_step f is_equal c start end j x state ≡ state
    unfolding extraction_step extraction_update is_within bool_variable
    outside_step start end j x state w e =
        let out : is_within f is_equal start end j state.within_sub_array ≡ false =
          rw (e, w) (same_branches (is_equal (from_canonical j) end)) in
        ap (extraction_update f is_equal c x state) out
        ∙ outside_update x state
        ∙ ap (λ b. record state { within_sub_array = b }) (sym w)

    pub outside_loop :
        (start end : F) (j : ℕ) (xs ys : List F) (state : Extraction f is_equal)
        → state.within_sub_array ≡ false
        → ((k : ℕ) → j ≤ k → k < j + length xs → is_equal (from_canonical k) start ≡ false)
        → extraction_loop f is_equal c start end j (xs ++ ys) state
          ≡ extraction_loop f is_equal c start end (j + length xs) ys state
    unfolding extraction_loop
    outside_loop start end j [] ys state w h =
        ap (λ k. extraction_loop f is_equal c start end k ys state) (omega arith)
    outside_loop start end j (x ∷ xs) ys state w h =
        let next : j + 1 + length xs ≡ j + suc (length xs) = omega arith in
        ap (extraction_loop f is_equal c start end (j + 1) (xs ++ ys))
          (outside_step start end j x state w (h j (omega arith) (omega arith)))
        ∙ outside_loop start end (j + 1) xs ys state w (λ k p q. h k (omega arith) (omega arith))
        ∙ ap (λ k. extraction_loop f is_equal c start end k ys state) next

    -- The state after the elements `xs` of the subarray.
    pub after : List F → Extraction f is_equal → Extraction f is_equal
    after [] state = state
    after (x ∷ xs) state = after xs (record {
      within_sub_array = true;
      subarray_size = add state.subarray_size one_f;
      r = mul state.r c;
      accumulator = add state.accumulator (mul (mul state.r c) x);
    })

    pub after-accumulator :
        (xs : List F) (state : Extraction f is_equal)
        → (after xs state).accumulator ≡ subarray_loop f is_equal c xs state.r state.accumulator
    unfolding after subarray_loop
    after-accumulator [] state = refl
    after-accumulator (x ∷ xs) state = after-accumulator xs _

    pub after-subarray_size :
        (xs : List F) (state : Extraction f is_equal)
        → (after xs state).subarray_size ≡ add state.subarray_size (from_canonical (length xs))
    unfolding after
    after-subarray_size [] state = sym (add_zero _) ∙ ap (add state.subarray_size) (sym f.from_zero)
    after-subarray_size (x ∷ xs) state =
        after-subarray_size xs _
        ∙ f.add_assoc state.subarray_size one_f (from_canonical (length xs))
        ∙ ap (add state.subarray_size) (
            ap (λ k. add k (from_canonical (length xs))) (sym f.from_one)
            ∙ sym (f.from_add 1 (length xs))
            ∙ ap from_canonical (omega arith))

    inside_step :
        (start end : F) (j : ℕ) (x : F) (state : Extraction f is_equal)
        → (state.within_sub_array ≡ true) ⊎ (is_equal (from_canonical j) start ≡ true)
        → is_equal (from_canonical j) end ≡ false
        → extraction_step f is_equal c start end j x state ≡ after (x ∷ []) state
    unfolding extraction_step extraction_update is_within bool_variable after
    inside_step start end j x state w e =
        let within : is_within f is_equal start end j state.within_sub_array ≡ true = rw e (elim w [
          | inl p ↦ rw p (either (is_equal (from_canonical j) start))
          | inr p ↦ rw p refl
        ]) in
        ap (extraction_update f is_equal c x state) within
        ∙ ap
            (λ a. record {
              within_sub_array = true;
              subarray_size = add state.subarray_size one_f;
              r = mul state.r c;
              accumulator = add state.accumulator a;
            })
            (f.one_mul (mul (mul state.r c) x))

    -- So do the steps at `xs`, which end before the end of the subarray.
    pub inside_loop :
        (start : F) (e j : ℕ) (xs ys : List F) (state : Extraction f is_equal)
        → (state.within_sub_array ≡ true) ⊎ (is_equal (from_canonical j) start ≡ true)
        → j + length xs ≤ e
        → e < order
        → extraction_loop f is_equal c start (from_canonical e) j (xs ++ ys) state
          ≡ extraction_loop f is_equal c start
              (from_canonical e)
              (j + length xs)
              ys
              (after xs state)
    unfolding extraction_loop after
    inside_loop start e j [] ys state w h h' =
        ap (λ k. extraction_loop f is_equal c start (from_canonical e) k ys state) (omega arith)
    inside_loop start e j (x ∷ xs) ys state w h h' =
        let open_end : is_equal (from_canonical j) (from_canonical e) ≡ false =
          same_index j e (omega arith) h' ∙ ground arith in
        let next : j + 1 + length xs ≡ j + suc (length xs) = omega arith in
        ap (extraction_loop f is_equal c start (from_canonical e) (j + 1) (xs ++ ys))
          (inside_step start (from_canonical e) j x state w open_end)
        ∙ inside_loop start e (j + 1) xs ys _ (inl refl) (omega arith) h'
        ∙ ap
            (λ k. extraction_loop f is_equal c start (from_canonical e) k ys (after (x ∷ xs) state))
            next

    -- What follows the subarray changes neither the size nor the accumulator.
    pub ending_loop :
        (s e : ℕ) (ys : List F) (state : Extraction f is_equal)
        → s < e
        → e + length ys ≤ order
        → let final =
            extraction_loop f is_equal c (from_canonical s) (from_canonical e) e ys state in
          (final.subarray_size ≡ state.subarray_size) × (final.accumulator ≡ state.accumulator)
    unfolding extraction_loop extraction_step is_within
    ending_loop s e [] state h h' = (refl, refl)
    ending_loop s e (y ∷ ys) state h h' =
        let closed = record state { within_sub_array = false } in
        let at_end = same_index e e (omega arith) (omega arith) ∙ ==_refl e in
        let past : extraction_loop f is_equal c (from_canonical s) (from_canonical e) e (y ∷ ys)
              state
            ≡ closed =
          rw at_end (
            ap (extraction_loop f is_equal c (from_canonical s) (from_canonical e) (e + 1) ys)
              (outside_update y state)
            ∙ ap
                (λ l.
                  extraction_loop f is_equal c (from_canonical s) (from_canonical e) (e + 1) l
                    closed)
                (sym (append-nil ys))
            ∙ outside_loop (from_canonical s) (from_canonical e) (e + 1) ys [] closed refl
                (λ k p q. same_index k s (omega arith) (omega arith) ∙ ground arith)) in
        (
          ap (λ (st : Extraction f is_equal). st.subarray_size) past,
          ap (λ (st : Extraction f is_equal). st.accumulator) past,
        )
