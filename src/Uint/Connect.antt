-- ===== src/Uint/Connect.antt =====
-- `connect_biguint` and `is_equal_biguint` tell whether the values are equal.
use native.Mathlib.Nat.{add-zero, zero-add}
use succinctx.Prelude.{
  ℕ, zero, suc, ◌+◌, ◌-◌, ◌≤◌, min, ◌≡◌, refl, sym, ◌∙◌, ◌↔◌, inl, inr, Bool, true, false, List,
  arith, leb, ◌==◌, if◌then◌else◌, ==_iff, tests, Bool-cases, length, get_or, drop, Outcome, ok,
  panic, stuck, ◌>>◌, ensure,
}
use succinctx.Uint.Gadgets.{is_equal_u32}
use succinctx.Uint.BigUint.{
  connect_loop, assert_zero_loop, connect_biguint, equal_loop, zero_loop, is_equal_biguint,
}
use succinctx.Uint.Value.{value, AreLimbs, value-drop, value-drop_past, get_or-AreLimbs}

pub ensure_iff :
    (c : Bool) (next : Outcome (Unit {0}))
    → ((ensure c >> next) ≡ ok tt) ↔ ((c ≡ true) × (next ≡ ok tt))
ensure_iff false next = (λ e. cc, λ p. cc)
ensure_iff true next = (λ e. (refl, e), λ p. p.1)

pub >>_iff :
    (first next : Outcome (Unit {0}))
    → ((first >> next) ≡ ok tt) ↔ ((first ≡ ok tt) × (next ≡ ok tt))
>>_iff panic next = (λ e. cc, λ p. cc)
>>_iff stuck next = (λ e. cc, λ p. cc)
>>_iff (ok tt) next = (λ e. (refl, e), λ p. p.1)

assert_zero_loop_iff :
    (left i : ℕ) (xs : List ℕ)
    → length xs ≤ i + left
    → (assert_zero_loop left i xs ≡ ok tt) ↔ (value (drop i xs) ≡ 0)
unfolding assert_zero_loop
assert_zero_loop_iff zero i xs h = (λ e. value-drop_past xs i (omega arith), λ e. refl)
assert_zero_loop_iff (suc left) i xs h =
    let here = ensure_iff (get_or xs i 0 == 0) (assert_zero_loop left (i + 1) xs) in
    let rest = assert_zero_loop_iff left (i + 1) xs (omega arith) in
    let split = value-drop xs i in
    (
      λ e.
          let (zero_limb, e') = here.0 e in
          omega (arith, split, rest.0 e', (==_iff (get_or xs i 0) 0).0 zero_limb),
      λ e. here.1 (
        (==_iff (get_or xs i 0) 0).1 (omega (arith, split, e)),
        rest.1 (omega (arith, split, e)),
      ),
    )

connect_loop_iff :
    (left i : ℕ) (a b : List ℕ)
    → AreLimbs a
    → AreLimbs b
    → ((connect_loop left i a b ≡ ok tt) × (value (drop (i + left) a) ≡ value (drop (i + left) b)))
      ↔ (value (drop i a) ≡ value (drop i b))
unfolding connect_loop
connect_loop_iff zero i a b la lb = rw (add-zero i) (λ p. p.1, λ e. (refl, e))
connect_loop_iff (suc left) i a b la lb =
    let x = get_or a i 0 in
    let y = get_or b i 0 in
    let here = ensure_iff (x == y) (connect_loop left (i + 1) a b) in
    let rest = connect_loop_iff left (i + 1) a b la lb in
    let index : i + 1 + left ≡ i + suc left = omega arith in
    let split_a = value-drop a i in
    let split_b = value-drop b i in
    let hx = get_or-AreLimbs a i la in
    let hy = get_or-AreLimbs b i lb in
    (
      λ p.
          let (same, e) = here.0 p.0 in
          omega (arith, split_a, split_b, (==_iff x y).0 same, rest.0 (e, rw index p.1)),
      λ e.
          let (e', past) = rest.1 (omega (arith, split_a, split_b, e, hx, hy)) in
          (
            here.1 ((==_iff x y).1 (omega (arith, split_a, split_b, e, hx, hy)), e'),
            rw (← index) past,
          ),
    )

-- Past the shorter operand, the values are equal only if both are 0.
past_both :
    (a b : List ℕ)
    → value (drop (min (length a) (length b)) a) ≡ value (drop (min (length a) (length b)) b)
    → (value (drop (min (length a) (length b)) a) ≡ 0)
      × (value (drop (min (length a) (length b)) b) ≡ 0)
past_both a b same =
    let n = min (length a) (length b) in
    elim (Bool-cases (leb (length a) (length b))) [
      | inl e ↦ let zero_a = value-drop_past a n (omega (tests, e)) in (zero_a, sym same ∙ zero_a)
      | inr e ↦ let zero_b = value-drop_past b n (ground (arith, e)) in (same ∙ zero_b, zero_b)
    ]

-- For limbs below 2 ^ 32, the constraints of connect_biguint can be met if and only if the values
-- are equal, however many limbs the two operands have.
pub connect_biguint_iff :
    (a b : List ℕ) → AreLimbs a → AreLimbs b → (connect_biguint a b ≡ ok tt) ↔ (value a ≡ value b)
unfolding connect_biguint
connect_biguint_iff a b la lb =
    let n = min (length a) (length b) in
    let common = connect_loop_iff n 0 a b la lb in
    let rest_a = assert_zero_loop_iff (length a - n) n a (omega arith) in
    let rest_b = assert_zero_loop_iff (length b - n) n b (omega arith) in
    (
      λ e.
          let (e₁, e₂) = (>>_iff _ _).0 e in
          let (e₃, e₄) = (>>_iff _ _).0 e₂ in
          common.0 (e₁, rw (zero-add n) (rest_a.0 e₃ ∙ sym (rest_b.0 e₄))),
      λ e.
          let (e₁, same) = common.1 e in
          let (no_a, no_b) = past_both a b (rw (zero-add n) at same) in
          (>>_iff _ _).1 (e₁, (>>_iff _ _).1 (rest_a.1 no_a, rest_b.1 no_b)),
    )

select_iff :
    (test ret : Bool) {later : Bool} {next : Outcome (Unit {0})}
    → ((later ≡ true) ↔ (((if test then ret else false) ≡ true) × (next ≡ ok tt)))
    → (later ≡ true) ↔ ((ret ≡ true) × ((ensure test >> next) ≡ ok tt))
select_iff false ret h = (λ e. cc ((h.0 e).0), λ p. cc (p.1))
select_iff true ret h = h

equal_loop_iff :
    (left i : ℕ) (ret : Bool) (a b : List ℕ)
    → (equal_loop left i ret a b ≡ true) ↔ ((ret ≡ true) × (connect_loop left i a b ≡ ok tt))
unfolding equal_loop connect_loop is_equal_u32
equal_loop_iff zero i ret a b = (λ e. (e, refl), λ p. p.0)
equal_loop_iff (suc left) i ret a b =
    select_iff (get_or a i 0 == get_or b i 0) ret (equal_loop_iff left (i + 1) _ a b)

zero_loop_iff :
    (left i : ℕ) (ret : Bool) (a : List ℕ)
    → (zero_loop left i ret a ≡ true) ↔ ((ret ≡ true) × (assert_zero_loop left i a ≡ ok tt))
unfolding zero_loop assert_zero_loop is_equal_u32
zero_loop_iff zero i ret a = (λ e. (e, refl), λ p. p.0)
zero_loop_iff (suc left) i ret a =
    select_iff (get_or a i 0 == 0) ret (zero_loop_iff left (i + 1) _ a)

-- For limbs below 2 ^ 32, is_equal_biguint is true if and only if the values are equal, however
-- many limbs the two operands have.
pub is_equal_biguint_iff :
    (a b : List ℕ) → AreLimbs a → AreLimbs b → (is_equal_biguint a b ≡ true) ↔ (value a ≡ value b)
unfolding is_equal_biguint connect_biguint
is_equal_biguint_iff a b la lb =
    let n = min (length a) (length b) in
    let common = equal_loop_iff n 0 true a b in
    let rest_a = zero_loop_iff (length a - n) n _ a in
    let rest_b = zero_loop_iff (length b - n) n _ b in
    let connect = connect_biguint_iff a b la lb in
    (
      λ e.
          let (e₁, e₂) = rest_b.0 e in
          let (e₃, e₄) = rest_a.0 e₁ in
          connect.0 ((>>_iff _ _).1 ((common.0 e₃).1, (>>_iff _ _).1 (e₄, e₂))),
      λ e.
          let (e₁, e₂) = (>>_iff _ _).0 (connect.1 e) in
          let (e₃, e₄) = (>>_iff _ _).0 e₂ in rest_b.1 (rest_a.1 (common.1 (refl, e₁), e₃), e₄),
    )
