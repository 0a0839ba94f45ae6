-- ===== src/Stream/At.antt =====
-- A stream that has read one list and has another before it.
use succinctx.Prelude.{
  ◌≡◌, refl, ap, List, [], ◌∷◌, ◌++◌, append_assoc, arith, length, length-append, take, drop, ok,
}
use succinctx.Stream.{Stream, read_exact}

module _ {ℓ} {A : Type ℓ} where
  abbrev pub at : List A → List A → Stream A
  at before after = record { contents = before ++ after; position = length before }

  pub drop-append : (xs ys : List A) → drop (length xs) (xs ++ ys) ≡ ys
  drop-append [] ys = refl
  drop-append (x ∷ xs) ys = drop-append xs ys

  pub take-append : (xs ys : List A) → take (length xs) (xs ++ ys) ≡ xs
  take-append [] ys = refl
  take-append (x ∷ xs) ys = ap (◌∷◌ x) (take-append xs ys)

  -- Reading what lies ahead moves it behind the position.
  pub read_exact-at :
      (before xs after : List A)
      → read_exact (at before (xs ++ after)) (length xs) ≡ ok (xs, at (before ++ xs) after)
  unfolding read_exact
  read_exact-at before xs after = ground (
    arith,
    length-append before (xs ++ after),
    length-append xs after,
    length-append before xs,
    drop-append before (xs ++ after),
    take-append xs after,
    append_assoc before xs after,
  )
