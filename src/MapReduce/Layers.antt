-- ===== src/MapReduce/Layers.antt =====
-- A list that is joined in pairs, layer by layer, against a tree over its halves.
use native.Mathlib.Nat.{two-pow-succ}
use succinctx.Stream.At.{take-append, drop-append}
use succinctx.Prelude.{
  length-append, ℕ, zero, suc, ◌+◌, ◌^◌, ◌≡◌, refl, sym, ap, ◌∙◌, List, [], ◌∷◌, ◌++◌, arith,
  length, take, drop, take-append-drop, length-take, length-drop, Outcome, ok, panic, ◌>>=◌,
  >>=-eq-ok,
}

module _ {A : Type 0} (join : A → A → Outcome A) where
  -- The tree of depth `d` over `2 ^ d` members.
  unfoldable pub tree : ℕ → List A → Outcome A
  tree zero [] = panic
  tree zero (x ∷ []) = ok x
  tree zero (x ∷ y ∷ xs) = panic
  tree (suc d) xs = do
    left ← tree d (take (2 ^ d) xs)
    right ← tree d (drop (2 ^ d) xs)
    join left right

  unfoldable pub pairs : List A → Outcome (List A)
  pairs [] = ok []
  pairs (x ∷ []) = ok []
  pairs (x ∷ y ∷ xs) = do z ← join x y; zs ← pairs xs; ok (z ∷ zs)

  -- The pairs of a list of even length are those of its parts.
  pairs-append :
      (n : ℕ) (xs ys : List A) {zs : List A}
      → length xs ≡ n + n
      → pairs (xs ++ ys) ≡ ok zs
      → (us : List A) × (vs : List A) × (pairs xs ≡ ok us)
        × (pairs ys ≡ ok vs)
        × (zs ≡ us ++ vs)
        × (length us ≡ n)
  unfolding pairs
  pairs-append zero [] ys {zs} l e = ([], zs, refl, e, refl, refl)
  pairs-append zero (x ∷ xs) ys l e = absurd (omega arith)
  pairs-append (suc n) [] ys l e = absurd (omega arith)
  pairs-append (suc n) (x ∷ []) ys l e = absurd (omega arith)
  pairs-append (suc n) (x ∷ y ∷ xs) ys l e =
      let (z, p, e1) = >>=-eq-ok (join x y) _ e in
      let (rest, q, e2) = >>=-eq-ok (pairs (xs ++ ys)) _ e1 in
      let (us, vs, r, s, t, k) = pairs-append n xs ys (omega arith) q in
      (z ∷ us, vs, rw (p, r) refl, s, cc (e2, t), ap suc k)

  pub tree-append :
      (d : ℕ) (xs ys : List A) {a b c : A}
      → length xs ≡ 2 ^ d
      → tree d xs ≡ ok a
      → tree d ys ≡ ok b
      → join a b ≡ ok c
      → tree (suc d) (xs ++ ys) ≡ ok c
  unfolding tree
  tree-append d xs ys l e e' j =
      let front : take (2 ^ d) (xs ++ ys) ≡ xs =
        ap (λ n. take n (xs ++ ys)) (sym l) ∙ take-append xs ys in
      let back : drop (2 ^ d) (xs ++ ys) ≡ ys =
        ap (λ n. drop n (xs ++ ys)) (sym l) ∙ drop-append xs ys in
      rw (front, e, back, e') j

  pub tree-split :
      (d : ℕ) (xs ys : List A) {c : A}
      → length xs ≡ 2 ^ d
      → tree (suc d) (xs ++ ys) ≡ ok c
      → (a : A) × (b : A) × (tree d xs ≡ ok a) × (tree d ys ≡ ok b) × (join a b ≡ ok c)
  unfolding tree
  tree-split d xs ys l e =
      let front : take (2 ^ d) (xs ++ ys) ≡ xs =
        ap (λ n. take n (xs ++ ys)) (sym l) ∙ take-append xs ys in
      let back : drop (2 ^ d) (xs ++ ys) ≡ ys =
        ap (λ n. drop n (xs ++ ys)) (sym l) ∙ drop-append xs ys in
      let (a, p, e1) = >>=-eq-ok (tree d xs) _ (rw (front, back) at e) in
      let (b, q, j) = >>=-eq-ok (tree d ys) _ e1 in (a, b, p, q, j)

  -- The tree over the layer of pairs is the tree with one more layer.
  pub pairs-tree :
      (d : ℕ) (xs ys : List A) {r : A}
      → length xs ≡ 2 ^ suc d
      → pairs xs ≡ ok ys
      → tree d ys ≡ ok r
      → tree (suc d) xs ≡ ok r
  unfolding pairs tree
  pairs-tree zero [] ys l e h = absurd (omega arith)
  pairs-tree zero (x ∷ []) ys l e h = absurd (omega arith)
  pairs-tree zero (x ∷ y ∷ z ∷ xs) ys l e h = absurd (omega arith)
  pairs-tree zero (x ∷ y ∷ []) ys {r} l e h =
      let (z, p, e1) = >>=-eq-ok (join x y) _ e in
      let is : ys ≡ z ∷ [] = cc e1 in let same : z ≡ r = cc (rw is at h) in p ∙ ap ok same
  pairs-tree (suc d) xs ys l e h =
      let whole = two-pow-succ (suc d) in
      let half = two-pow-succ d in
      let front = take (2 ^ suc d) xs in
      let back = drop (2 ^ suc d) xs in
      let n = length-take (2 ^ suc d) xs in
      let m = length-drop (2 ^ suc d) xs in
      let lf : length front ≡ 2 ^ suc d = omega arith in
      let lb : length back ≡ 2 ^ suc d = omega arith in
      let (us, vs, p, q, e1, k) =
        pairs-append (2 ^ d) front back (omega arith)
          (ap pairs (take-append-drop (2 ^ suc d) xs) ∙ e) in
      let (a, b, s, t, j) = tree-split d us vs k (rw e1 at h) in
      ap (tree (suc (suc d))) (sym (take-append-drop (2 ^ suc d) xs))
      ∙ tree-append (suc d) front back lf (pairs-tree d front us lf p s)
          (pairs-tree d back vs lb q t) j

  pairs-append_ok :
      (n : ℕ) (xs ys us vs : List A)
      → length xs ≡ n + n
      → pairs xs ≡ ok us
      → pairs ys ≡ ok vs
      → (pairs (xs ++ ys) ≡ ok (us ++ vs)) × (length us ≡ n)
  unfolding pairs
  pairs-append_ok zero [] ys us vs l e e' =
      let none_left : [] ≡ us = cc e in rw (← none_left) (e', refl)
  pairs-append_ok zero (x ∷ xs) ys us vs l e e' = absurd (omega arith)
  pairs-append_ok (suc n) [] ys us vs l e e' = absurd (omega arith)
  pairs-append_ok (suc n) (x ∷ []) ys us vs l e e' = absurd (omega arith)
  pairs-append_ok (suc n) (x ∷ y ∷ xs) ys us vs l e e' =
      let (z, p, e1) = >>=-eq-ok (join x y) _ e in
      let (rest, q, e2) = >>=-eq-ok (pairs xs) _ e1 in
      let whole : z ∷ rest ≡ us = cc e2 in
      let (r, k) = pairs-append_ok n xs ys rest vs (omega arith) q e' in
      rw (← whole) (rw (p, r) refl, ap suc k)

  -- A tree that has a value has its value by layers.
  pub tree-pairs :
      (d : ℕ) (xs : List A) {r : A}
      → length xs ≡ 2 ^ suc d
      → tree (suc d) xs ≡ ok r
      → (ys : List A) × (pairs xs ≡ ok ys) × (tree d ys ≡ ok r) × (length ys ≡ 2 ^ d)
  unfolding pairs tree
  tree-pairs zero [] l e = absurd (omega arith)
  tree-pairs zero (x ∷ []) l e = absurd (omega arith)
  tree-pairs zero (x ∷ y ∷ z ∷ xs) l e = absurd (omega arith)
  tree-pairs zero (x ∷ y ∷ []) {r} l e = (r ∷ [], rw e refl, refl, refl)
  tree-pairs (suc d) xs {r} l e =
      let whole = two-pow-succ (suc d) in
      let half = two-pow-succ d in
      let front = take (2 ^ suc d) xs in
      let back = drop (2 ^ suc d) xs in
      let n = length-take (2 ^ suc d) xs in
      let m = length-drop (2 ^ suc d) xs in
      let lf : length front ≡ 2 ^ suc d = omega arith in
      let lb : length back ≡ 2 ^ suc d = omega arith in
      let join_up = take-append-drop (2 ^ suc d) xs in
      let (a, b, s, t, j) =
        tree-split (suc d) front back lf (ap (tree (suc (suc d))) join_up ∙ e) in
      let (us, p, p', k) = tree-pairs d front lf s in
      let (vs, q, q', k') = tree-pairs d back lb t in
      let (together, same) = pairs-append_ok (2 ^ d) front back us vs (omega arith) p q in
      (
        us ++ vs,
        ap pairs (sym join_up) ∙ together,
        tree-append d us vs k p' q' j,
        omega (arith, length-append us vs),
      )
