-- ===== src/Vars/SubarrayCheck.antt =====
-- What the check of Vars/Subarray.antt accepts.
use mathlib.Core.Path.{subst}
use succinctx.Prelude.{
  ℕ, ◌+◌, ◌-◌, ◌*◌, ◌≤◌, ◌<◌, ◌≡◌, refl, sym, ap, ◌∙◌, ◌↔◌, ◌⊎◌, inl, inr, Bool, true, false, ◌&&◌,
  List, [], ◌∷◌, ◌++◌, map, append-nil, arith, ltb, leb, ◌==◌, ==_refl, Bool-cases, length, take,
  drop, take-append-drop, length-take, length-drop, length-map, ok,
}
use succinctx.Gates.Field.{Field, order, IsDomain}
use succinctx.Sha.Pad.{Byte}
use succinctx.Vars.Layout.{All, part}
use succinctx.Vars.Subarray.{
  Extraction, extraction_loop, subarray_loop, extraction_round, extraction_rounds, extract_subarray,
  to_variable, seed_chunks,
}
use succinctx.Vars.SubarraySound.{
  same_index, inside_loop, outside_loop, ending_loop, after, after-accumulator, after-subarray_size,
}

module _ (f : Field) (is_equal : f.F → f.F → Bool)
    (is_equal_iff : (a b : f.F) → (is_equal a b ≡ true) ↔ (a ≡ b)) (domain : IsDomain f) where
  open f use {F, zero_f, one_f, add, mul, from_canonical}

  abbrev begin : Extraction f is_equal
  begin = record {
    within_sub_array = false;
    subarray_size = zero_f;
    r = one_f;
    accumulator = zero_f;
  }

  -- What a state has counted and added up.
  abbrev Counts : Extraction f is_equal → ℕ → F → Type 0
  Counts state n a = (state.subarray_size ≡ from_canonical n) × (state.accumulator ≡ a)

  after-Counts :
      (c : F) (xs : List F)
      → Counts
          (after f is_equal is_equal_iff domain c xs begin)
          (length xs)
          (subarray_loop f is_equal c xs one_f zero_f)
  after-Counts c xs = (
    after-subarray_size f is_equal is_equal_iff domain c xs begin ∙ f.zero_add _,
    after-accumulator f is_equal is_equal_iff domain c xs begin,
  )

  -- The parts of an array before, inside and after the `n` elements from number `s` on.
  loop-Counts :
      (c : F) (s n : ℕ) (before mid rest : List F)
      → length before ≡ s
      → 0 < n
      → ((length mid ≡ n) ⊎ (rest ≡ [])) × (length mid ≤ n)
      → s + n + length rest ≤ order
      → s + n < order
      → Counts
          (extraction_loop f is_equal c
            (from_canonical s)
            (from_canonical (s + n))
            0
            (before ++ (mid ++ rest))
            begin)
          (length mid)
          (subarray_loop f is_equal c mid one_f zero_f)
  unfolding extraction_loop
  loop-Counts c s n before mid rest l positive h bound bound' =
      let start = from_canonical s in
      let final = after f is_equal is_equal_iff domain c mid begin in
      let here =
        same_index f is_equal is_equal_iff domain s s (omega arith) (omega arith) ∙ ==_refl s in
      let first =
        outside_loop f is_equal is_equal_iff domain c start (from_canonical (s + n)) 0 before
          (mid ++ rest) begin refl
          (λ k p q.
            same_index f is_equal is_equal_iff domain k s (omega arith) (omega arith)
            ∙ ground arith)
        ∙ ap
            (λ k. extraction_loop f is_equal c start (from_canonical (s + n)) k (mid ++ rest) begin)
            (omega arith)
        ∙ inside_loop f is_equal is_equal_iff domain c start (s + n) s mid rest begin (inr here)
            (omega arith) (omega arith) in
      let final_loop =
        extraction_loop f is_equal c start (from_canonical (s + n)) (s + length mid) rest final in
      let ended : (final_loop.subarray_size ≡ final.subarray_size)
          × (final_loop.accumulator ≡ final.accumulator) =
        elim h.0 [
          | inl full ↦ rw full (
              ending_loop f is_equal is_equal_iff domain c s (s + n) rest final (omega arith)
                (omega arith))
          | inr none_left ↦ rw none_left (refl, refl)
        ] in
      let counted = after-Counts c mid in
      (
        ap (λ (st : Extraction f is_equal). st.subarray_size) first ∙ ended.0 ∙ counted.0,
        ap (λ (st : Extraction f is_equal). st.accumulator) first ∙ ended.1 ∙ counted.1,
      )

  empty-Counts :
      (c start end : F) (array : List F)
      → ((k : ℕ) → 0 ≤ k → k < 0 + length array → is_equal (from_canonical k) start ≡ false)
      → Counts (extraction_loop f is_equal c start end 0 array begin) 0 zero_f
  unfolding extraction_loop
  empty-Counts c start end array h =
      let e =
        ap (λ l. extraction_loop f is_equal c start end 0 l begin) (sym (append-nil array))
        ∙ outside_loop f is_equal is_equal_iff domain c start end 0 array [] begin refl h in
      (
        ap (λ (st : Extraction f is_equal). st.subarray_size) e ∙ sym f.from_zero,
        ap (λ (st : Extraction f is_equal). st.accumulator) e,
      )

  empty : (xs : List F) → length xs ≡ 0 → xs ≡ []
  empty [] e = refl
  empty (x ∷ xs) e = absurd (omega arith)

  array-Counts :
      (c : F) (s n : ℕ) (array : List F)
      → 0 < n
      → s < order
      → length array + n < order
      → Counts
          (extraction_loop f is_equal c (from_canonical s) (from_canonical (s + n)) 0 array begin)
          (length (part array s n))
          (subarray_loop f is_equal c (part array s n) one_f zero_f)
  unfolding subarray_loop
  array-Counts c s n array positive bound bound' =
      let ld = length-drop s array in
      let lt = length-take n (drop s array) in
      let lr = length-drop n (drop s array) in
      let lb = length-take s array in
      elim (Bool-cases (ltb s (length array))) [
        | inl inside ↦
            let before = take s array in
            let mid = part array s n in
            let rest = drop n (drop s array) in
            let whole : before ++ (mid ++ rest) ≡ array =
              ap (λ l. before ++ l) (take-append-drop n (drop s array))
              ∙ take-append-drop s array in
            let h : ((length mid ≡ n) ⊎ (rest ≡ [])) × (length mid ≤ n) = (
              elim (Bool-cases (leb n (length array - s))) [
                | inl full ↦ inl (ground arith)
                | inr short ↦ inr (empty rest (ground arith))
              ],
              ground arith,
            ) in
            subst
              (λ l.
                Counts
                  (extraction_loop f is_equal c (from_canonical s) (from_canonical (s + n)) 0 l
                    begin)
                  (length mid) (subarray_loop f is_equal c mid one_f zero_f))
              whole
              (loop-Counts c s n before mid rest (ground arith) positive h (ground arith)
                (ground arith))
        | inr outside ↦ rw (empty (part array s n) (ground arith)) (
            empty-Counts c (from_canonical s) (from_canonical (s + n)) array (λ k p q.
              same_index f is_equal is_equal_iff domain k s (ground arith) bound ∙ ground arith))
      ]

  -- One round accepts exactly if the part lies within the array and the sums over the part and over
  -- the subarray agree at the challenge.
  extraction_round-part :
      (c : F) (s : ℕ) (array sub_array : List F)
      → 0 < length sub_array
      → s < order
      → length array + length sub_array < order
      → extraction_round f is_equal array sub_array (from_canonical s) c ≡ (
          leb (s + length sub_array) (length array)
          && is_equal
              (subarray_loop f is_equal c (part array s (length sub_array)) one_f zero_f)
              (subarray_loop f is_equal c sub_array one_f zero_f))
  unfolding extraction_round
  extraction_round-part c s array sub_array positive bound bound' =
      let n = length sub_array in
      let counts = array-Counts c s n array positive bound bound' in
      let ld = length-drop s array in
      let lt = length-take n (drop s array) in
      let size : (length (part array s n) == n) ≡ leb (s + n) (length array) = ground arith in
      rw
        (
          ← f.from_add s n,
          counts.0,
          counts.1,
          same_index f is_equal is_equal_iff domain (length (part array s n)) n (ground arith)
              (omega arith),
          size,
        )
        refl

  -- The sums over the two lists agree at a challenge.
  abbrev pub Agree : List F → List F → F → Type 0
  Agree xs ys c =
      subarray_loop f is_equal c xs one_f zero_f ≡ subarray_loop f is_equal c ys one_f zero_f

  rounds-All :
      (array sub_array : List F) (start : F) (cs : List F)
      → (extraction_rounds f is_equal array sub_array start cs ≡ ok tt)
        ↔ All (λ c. extraction_round f is_equal array sub_array start c ≡ true) cs
  unfolding extraction_rounds
  rounds-All array sub_array start [] = (λ e. tt, λ h. refl)
  rounds-All array sub_array start (c ∷ cs) =
      let more = rounds-All array sub_array start cs in
      elim (Bool-cases (extraction_round f is_equal array sub_array start c)) [
        | inl e ↦ rw e (λ h. (refl, more.0 h), λ h. more.1 h.1)
        | inr e ↦ rw e (λ h. absurd (cc h), λ h. absurd (cc h.0))
      ]

  round_iff :
      (s : ℕ) (array sub_array : List F) (c : F)
      → 0 < length sub_array
      → s < order
      → length array + length sub_array < order
      → (extraction_round f is_equal array sub_array (from_canonical s) c ≡ true) ↔ (
          (s + length sub_array ≤ length array)
          × Agree (part array s (length sub_array)) sub_array c)
  round_iff s array sub_array c positive bound bound' =
      let n = length sub_array in
      let left = subarray_loop f is_equal c (part array s n) one_f zero_f in
      let right = subarray_loop f is_equal c sub_array one_f zero_f in
      let same = is_equal_iff left right in
      let eq = extraction_round-part c s array sub_array positive bound bound' in
      rw eq (elim (Bool-cases (leb (s + n) (length array))) [
        | inl e ↦ rw e (λ h. (ground arith, same.0 h), λ h. same.1 h.1)
        | inr e ↦ rw e (λ h. absurd (cc h), λ h. absurd (ground (arith, h.0)))
      ])

  map-All : (P Q : F → Type 0) (cs : List F) → ((c : F) → P c → Q c) → All P cs → All Q cs
  map-All P Q [] h all = tt
  map-All P Q (c ∷ cs) h all = (h c all.0, map-All P Q cs h all.1)

  share : (A : Type 0) (P : F → Type 0) (cs : List F) → A → All P cs → All (λ c. A × P c) cs
  share A P [] a h = tt
  share A P (c ∷ cs) a h = ((a, h.0), share A P cs a h.1)

  join :
      (A : Type 0) (P : F → Type 0) (cs : List F)
      → 0 < length cs
      → All (λ c. A × P c) cs
      → A × All P cs
  join A P [] some_c h = absurd (omega arith)
  join A P (c ∷ cs) some_c h = (h.0.0, map-All (λ d. A × P d) P (c ∷ cs) (λ d q. q.1) h)

  -- The challenger gives as many challenges as it is asked for. The start index is below the order of
  -- the field, and so are the two lengths together. A list of bytes that is not empty is accepted
  -- as the part of the array from number `s` on exactly if the seed has 15 bytes or more, the part
  -- lies within the array, and at each challenge the sums over the two agree.
  pub extract_subarray_iff :
      (challenges : List (List Bool) → ℕ → List F)
      (length-challenges : (chunks : List (List Bool)) (n : ℕ) → length (challenges chunks n) ≡ n)
      (s : ℕ) (array sub_array seed : List Byte)
      → 0 < length sub_array
      → s < order
      → length array + length sub_array < order
      → let elements = map (to_variable f is_equal) array in
        let given = map (to_variable f is_equal) sub_array in
        let chunks = seed_chunks f is_equal challenges (length seed) seed in
        (extract_subarray f is_equal challenges array sub_array (from_canonical s) seed ≡ ok tt) ↔ (
          (15 ≤ length seed)
          × (s + length sub_array ≤ length array)
          × All (Agree (part elements s (length sub_array)) given) (challenges chunks 3))
  unfolding extract_subarray
  extract_subarray_iff challenges length-challenges s array sub_array seed positive bound bound' =
      let elements = map (to_variable f is_equal) array in
      let given = map (to_variable f is_equal) sub_array in
      let cs = challenges (seed_chunks f is_equal challenges (length seed) seed) 3 in
      let la = length-map array (to_variable f is_equal) in
      let lg = length-map sub_array (to_variable f is_equal) in
      let rounds = rounds-All elements given (from_canonical s) cs in
      let n = length sub_array in
      let some_round : 0 < length cs =
        omega (arith, length-challenges (seed_chunks f is_equal challenges (length seed) seed) 3) in
      let Fits : F → Type 0 = λ c. (s + n ≤ length array) × Agree (part elements s n) given c in
      let round : (c : F)
          → (extraction_round f is_equal elements given (from_canonical s) c ≡ true) ↔ Fits c =
        λ c. rw (← lg, ← la) (round_iff s elements given c (omega arith) bound (omega arith)) in
      elim (Bool-cases (leb 120 (8 * length seed))) [
        | inl long ↦ rw long (
          λ e.
              let (fits, agree) =
                join (s + n ≤ length array) (Agree (part elements s n) given) cs some_round
                  (map-All _ Fits cs (λ c. (round c).0) (rounds.0 e)) in
              (ground arith, fits, agree),
          λ h. rounds.1 (
              map-All Fits _ cs (λ c. (round c).1)
                (share (s + n ≤ length array) (Agree (part elements s n) given) cs h.1 h.2)),
        )
        | inr brief ↦ rw brief (λ e. absurd (cc e), λ h. absurd (ground (arith, h.0)))
      ]
