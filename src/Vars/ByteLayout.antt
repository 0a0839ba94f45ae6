-- ===== src/Vars/ByteLayout.antt =====
-- plonky2x/core/src/frontend/vars/byte.rs: the layout of a byte, eight elements with the highest bit
-- first. `from_bool` is `from_canonical_u64` of a bit, and `is_one` the test for `F::ONE`.
use native.Mathlib.Nat.{mod-eq_of_lt}
use succinctx.Prelude.{
  index, ℕ, zero, suc, ◌+◌, ◌-◌, ◌*◌, ◌/◌, ◌%◌, ◌^◌, ◌<◌, ◌≡◌, refl, ap, ◌∙◌, Bool, List, [], ◌∷◌,
  map, ◌==◌, length, Outcome, ok, ◌>>=◌,
}
use succinctx.Sha.Pad.{byte_constant}
use succinctx.Vars.Byte.{bit_value, from_elements}
use succinctx.Vars.Shift.{from_elements-byte_constant}
use succinctx.Vars.Circuit.{CircuitVariable, IsLawful}

module _ {F : Type 0} (from_bool : Bool → F) (is_one : F → Bool) where
  unfoldable pub byte_elements : ℕ → List F
  unfolding byte_constant
  byte_elements value = map from_bool (byte_constant value)

  -- The sum of the terms from number `i` on, `left` of them. `elements[i]` panics out of bounds.
  unfoldable pub terms_loop : ℕ → ℕ → List F → Outcome ℕ
  unfolding bit_value
  terms_loop zero i elements = ok 0
  terms_loop (suc left) i elements = do
    element ← index elements i
    acc ← terms_loop left (i + 1) elements
    ok (2 ^ (7 - i) * bit_value (is_one element) + acc)

  -- More elements than eight are ignored.
  unfoldable pub byte_from_elements : List F → Outcome ℕ
  unfolding terms_loop
  byte_from_elements elements = do acc ← terms_loop 8 0 elements; ok (acc % 256)

  abbrev pub byte : CircuitVariable F
  byte = record {
    Value = ℕ;
    nb_elements = 8;
    elements = byte_elements;
    from_elements = byte_from_elements;
  }

  module _ (one : (b : Bool) → is_one (from_bool b) ≡ b) where
    bits_back :
        (a b c d e f g h : Bool)
        → let bits = a ∷ b ∷ c ∷ d ∷ e ∷ f ∷ g ∷ h ∷ [] in
          byte_from_elements (map from_bool bits) ≡ ok (from_elements bits % 256)
    unfolding byte_from_elements from_elements
    bits_back a b c d e f g h = rw (one a, one b, one c, one d, one e, one f, one g, one h) refl

    pub byte_back : (v : ℕ) → v < 256 → byte_from_elements (byte_elements v) ≡ ok v
    unfolding byte_elements
    byte_back v h =
        bits_back (v / 128 % 2 == 1) (v / 64 % 2 == 1) (v / 32 % 2 == 1) (v / 16 % 2 == 1)
          (v / 8 % 2 == 1) (v / 4 % 2 == 1) (v / 2 % 2 == 1) (v % 2 == 1)
        ∙ ap (λ k. ok (k % 256)) (from_elements-byte_constant v h)
        ∙ ap ok (mod-eq_of_lt h)

    pub length-byte_elements : (v : ℕ) → length (byte_elements v) ≡ 8
    unfolding byte_elements
    length-byte_elements v = refl

    abbrev pub byte-IsLawful : IsLawful byte
    byte-IsLawful = record {
      IsValue = λ v. v < 256;
      length-elements = λ v valid. length-byte_elements v;
      from_elements-elements = byte_back;
    }
