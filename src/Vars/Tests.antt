-- ===== src/Vars/Tests.antt =====
-- The layouts, the streams and the subarrays of Vars at concrete inputs, over the integers.
use succinctx.Prelude.{
  ℕ, ◌+◌, ◌≤◌, ◌≡◌, refl, ap, ◌≢◌, ◌↔◌, Bool, true, false, List, [], ◌∷◌, ◌++◌, map, arith, ◌==◌,
  if◌then◌else◌, ==_iff, replicate, length-replicate, ok,
}
use succinctx.Sha.Pad.{Byte, byte_constant}
use succinctx.Gates.Integers.{ℤ, pos, negsuc, integers, integers-IsDomain}
use succinctx.Gates.Examples.{integers_canonical}
use succinctx.Stream.{new}
use succinctx.Stream.At.{at}
use succinctx.Vars.Circuit.{
  CircuitVariable, IsLawful, Has, set_value, get_value, get_value-set_value,
}
use succinctx.Vars.Collections.{
  variable, variable_from_elements, variable-IsLawful, variable-ChecksLength, boolean,
  boolean-IsLawful, array, array_elements,
}
use succinctx.Vars.Layout.{
  All, part, array-IsLawful, struct-IsLawful, struct_from_elements-elements,
  tuple_from_elements-ne-ok,
}
use succinctx.Vars.Tuple.{
  nb_elements, struct, struct_from_elements, tuple_from_elements, tails_from_elements, elements,
}
use succinctx.Vars.ByteLayout.{byte, byte_elements, byte_from_elements, terms_loop, byte-IsLawful}
use succinctx.Vars.Streams.{read_vec, write_values, read_vec-write_values}
use succinctx.Vars.Subarray.{select_array, extract_subarray, to_variable, seed_chunks}
use succinctx.Vars.Select.{select_array-get_or}
use succinctx.Vars.SubarrayCheck.{Agree, extract_subarray_iff}
use succinctx.Vars.Extractor.{hint, hint_input, hint-part}

abbrev int_equal : ℤ → ℤ → Bool
int_equal (pos m) (pos n) = m == n
int_equal (pos m) (negsuc n) = false
int_equal (negsuc m) (pos n) = false
int_equal (negsuc m) (negsuc n) = m == n

int_equal_iff : (a b : ℤ) → (int_equal a b ≡ true) ↔ (a ≡ b)
int_equal_iff (pos m) (pos n) = (λ e. ap pos ((==_iff m n).0 e), λ e. (==_iff m n).1 (cc e))
int_equal_iff (pos m) (negsuc n) = (λ e. cc e, λ e. cc e)
int_equal_iff (negsuc m) (pos n) = (λ e. cc e, λ e. cc e)
int_equal_iff (negsuc m) (negsuc n) =
    (λ e. ap negsuc ((==_iff m n).0 e), λ e. (==_iff m n).1 (cc e))

abbrev int_bool : Bool → ℤ
int_bool true = pos 1
int_bool false = pos 0

int_bool_back : (b : Bool) → int_equal (int_bool b) (pos 1) ≡ b
int_bool_back true = refl
int_bool_back false = refl

abbrev int_boolean : CircuitVariable ℤ
int_boolean = boolean int_bool (λ x. int_equal x (pos 1))

abbrev int_boolean-IsLawful : IsLawful int_boolean
int_boolean-IsLawful = boolean-IsLawful int_bool (λ x. int_equal x (pos 1)) int_bool_back

abbrev int_one : ℤ → Bool
int_one x = int_equal x (pos 1)

abbrev int_byte : CircuitVariable ℤ
int_byte = byte int_bool int_one

abbrev int_byte-IsLawful : IsLawful int_byte
int_byte-IsLawful = byte-IsLawful int_bool int_one int_bool_back

-- A struct of a variable and a byte.
abbrev tagged_byte : CircuitVariable ℤ
tagged_byte = struct (variable ∷ int_byte ∷ [])

abbrev tagged_byte-IsLawful : IsLawful tagged_byte
tagged_byte-IsLawful =
    struct-IsLawful (variable ∷ int_byte ∷ []) (variable-IsLawful, (int_byte-IsLawful, tt))

abbrev flags_written : List (ℕ × ℤ)
flags_written = (7, pos 1) ∷ (8, pos 0) ∷ []

get_value-set_value_example :
    (writes : List (ℕ × ℤ)) × (set_value (array int_boolean 2) (7 ∷ 8 ∷ []) (true ∷ false ∷ [])
      ≡ ok writes)
    × (Has (λ t. if t == 7 then pos 1 else pos 0) writes
        → get_value (array int_boolean 2) (7 ∷ 8 ∷ []) (λ t. if t == 7 then pos 1 else pos 0)
          ≡ ok (true ∷ false ∷ []))
get_value-set_value_example =
    get_value-set_value (array int_boolean 2) (array-IsLawful int_boolean int_boolean-IsLawful 2)
      (7 ∷ 8 ∷ []) (true ∷ false ∷ []) (λ t. if t == 7 then pos 1 else pos 0) (refl, (tt, (tt, tt)))
      refl

struct_from_elements-elements_example :
    struct_from_elements
      (variable ∷ int_boolean ∷ [])
      (elements (variable ∷ int_boolean ∷ []) (pos 5, (true, tt)) ++ pos 9 ∷ [])
    ≡ ok (pos 5, (true, tt))
struct_from_elements-elements_example =
    struct_from_elements-elements (variable ∷ int_boolean ∷ [])
      (variable-IsLawful, (int_boolean-IsLawful, tt)) (pos 5, (true, tt)) (pos 9 ∷ [])
      (tt, (tt, tt))

-- A variable, a boolean, a variable and a boolean: the second and the third assert their lengths.
tuple_from_elements-ne-ok_example :
    tuple_from_elements variable
      (int_boolean ∷ variable ∷ int_boolean ∷ [])
      (pos 1 ∷ pos 1 ∷ pos 3 ∷ pos 0 ∷ [])
    ≢ ok (pos 1, (true, (pos 3, (false, tt))))
unfolding nb_elements
tuple_from_elements-ne-ok_example =
    tuple_from_elements-ne-ok variable (int_boolean ∷ []) variable (int_boolean ∷ [])
      (pos 1 ∷ pos 1 ∷ pos 3 ∷ pos 0 ∷ []) (pos 1, (true, (pos 3, (false, tt))))
      variable-ChecksLength (omega arith)

-- A byte does not assert its length: it ignores the elements after it.
abbrev byte_in_tuple : List ℤ
byte_in_tuple = pos 1 ∷ (byte_elements int_bool int_one 200 ++ pos 3 ∷ [])

tuple_with_byte :
    tuple_from_elements variable (int_byte ∷ variable ∷ []) byte_in_tuple
    ≡ ok (pos 1, (200, (pos 3, tt)))
unfolding tuple_from_elements tails_from_elements nb_elements byte_from_elements byte_elements
    terms_loop variable_from_elements
tuple_with_byte = refl

read_vec-write_values_example :
    read_vec tagged_byte 2
      (write_values tagged_byte (at (pos 4 ∷ []) []) ((pos 7, (200, tt)) ∷ (pos 9, (3, tt)) ∷ []))
    ≡ ok (
      (pos 7, (200, tt)) ∷ (pos 9, (3, tt)) ∷ [],
      at (pos 4 ∷ [] ++ array_elements tagged_byte ((pos 7, (200, tt)) ∷ (pos 9, (3, tt)) ∷ [])) [],
    )
read_vec-write_values_example =
    read_vec-write_values tagged_byte tagged_byte-IsLawful (pos 4 ∷ [])
      ((pos 7, (200, tt)) ∷ (pos 9, (3, tt)) ∷ [])
      ((tt, (omega arith, tt)), ((tt, (omega arith, tt)), tt))

select_array-get_or_example :
    select_array integers int_equal {A = ℕ} (30 ∷ 40 ∷ 50 ∷ []) (pos 7) ≡ ok 30
select_array-get_or_example =
    select_array-get_or integers int_equal int_equal_iff integers-IsDomain {A = ℕ} 7 30
      (40 ∷ 50 ∷ []) (omega arith) (omega arith)

abbrev three_bytes : List Byte
three_bytes = byte_constant 3 ∷ byte_constant 200 ∷ byte_constant 9 ∷ []

abbrev two_bytes : List Byte
two_bytes = byte_constant 200 ∷ byte_constant 9 ∷ []

abbrev twos : List (List Bool) → ℕ → List ℤ
twos chunks n = replicate n (pos 2)

abbrev seed : List Byte
seed = replicate 15 (byte_constant 1)

extract_subarray_iff_example :
    (extract_subarray integers int_equal twos three_bytes two_bytes (pos 1) seed ≡ ok tt) ↔ (
      (15 ≤ 15)
      × (1 + 2 ≤ 3)
      × All
          (Agree integers int_equal int_equal_iff integers-IsDomain
            (part (map (to_variable integers int_equal) three_bytes) 1 2)
            (map (to_variable integers int_equal) two_bytes))
          (twos (seed_chunks integers int_equal twos 15 seed) 3))
extract_subarray_iff_example =
    extract_subarray_iff integers int_equal int_equal_iff integers-IsDomain twos
      (λ chunks n. length-replicate n (pos 2)) 1 three_bytes two_bytes seed (omega arith)
      (omega arith) (omega arith)

hint-part_example :
    hint integers integers_canonical int_byte 3 2
      (hint_input integers integers_canonical int_byte (3 ∷ 200 ∷ 9 ∷ []) (pos 1))
      (new [])
    ≡ ok (write_values int_byte (new []) (200 ∷ 9 ∷ []))
hint-part_example =
    hint-part integers integers_canonical int_byte int_byte-IsLawful (3 ∷ 200 ∷ 9 ∷ []) 1 2 (new [])
      (omega arith, (omega arith, (omega arith, tt))) (omega arith)
