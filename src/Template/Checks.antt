-- ===== src/Template/Checks.antt =====
-- The tests on values: `assert_cmp`, `assert_optional` and `assert_fill_optional` of
-- crates/dash/provider/src/input.rs, and the `imp` module of crates/dash/provider/src/lib.rs.
use open_ark.Prelude.{
  ℕ, Bool, true, false, ◌&&◌, Option, none, some, List, if◌then◌else◌, eqb, ltb, contains, nat_eq,
  Result, ok, err, ◌>>◌,
}
use open_ark.Prelude.Int.{ℤ, leb_ℤ}
use open_ark.Template.{
  Ordering, less, equal, greater, Codec, Json, null, boolean, number, string, array, object,
  StringKind, dynamic_string, static_string, range_string, InputError, out_of_range, too_long,
  wrong_length, not_a_choice, not_parsed, type_mismatch, missing_value,
}

-- `i64::partial_cmp`
abbrev pub integer_cmp : ℤ → ℤ → Option Ordering
integer_cmp a b = if leb_ℤ a b then (if leb_ℤ b a then some equal else some less) else some greater

abbrev pub ordering_eqb : Ordering → Ordering → Bool
ordering_eqb less less = true
ordering_eqb equal equal = true
ordering_eqb greater greater = true
ordering_eqb less equal = false
ordering_eqb less greater = false
ordering_eqb equal less = false
ordering_eqb equal greater = false
ordering_eqb greater less = false
ordering_eqb greater equal = false

abbrev pub is_ordered : Option Ordering → Ordering → Bool
is_ordered none o = false
is_ordered (some less) o = ordering_eqb less o
is_ordered (some equal) o = true
is_ordered (some greater) o = ordering_eqb greater o

-- `assert_cmp`
abbrev pub assert_cmp :
    {T : Type 0}
    → (T → T → Option Ordering)
    → T
    → Option T
    → Ordering
    → Result InputError (Unit {0})
assert_cmp cmp subject none ordering = ok tt
assert_cmp cmp subject (some bound) ordering =
    if is_ordered (cmp subject bound) ordering then ok tt else err out_of_range

-- Both bounds of a number
abbrev pub assert_bounds :
    {T : Type 0}
    → (T → T → Option Ordering)
    → T
    → Option T
    → Option T
    → Result InputError (Unit {0})
assert_bounds cmp subject minimum maximum =
    assert_cmp cmp subject minimum greater >> assert_cmp cmp subject maximum less

-- `imp::assert_string`, of a text of this length
abbrev pub assert_at_least : ℕ → Option ℕ → Result InputError (Unit {0})
assert_at_least len none = ok tt
assert_at_least len (some minimum) = if ltb len minimum then err wrong_length else ok tt

abbrev pub assert_length : ℕ → StringKind → Result InputError (Unit {0})
assert_length len dynamic_string = ok tt
assert_length len (static_string length) = if eqb len length then ok tt else err wrong_length
assert_length len (range_string minimum maximum) =
    assert_at_least len minimum >> (if ltb maximum len then err wrong_length else ok tt)

abbrev pub assert_string : (k : Codec) → ℕ → StringKind → Result InputError (Unit {0})
assert_string k value spec =
    if ltb (k.text_len value) 4294967296
    then assert_length (k.text_len value) spec
    else err too_long

-- `imp::assert_contains` and `imp::assert_type`
abbrev pub assert_contains : List ℕ → ℕ → Result InputError (Unit {0})
assert_contains choices value = if contains choices value then ok tt else err not_a_choice

abbrev pub assert_type : (ℕ → Bool) → ℕ → Result InputError (Unit {0})
assert_type parses value = if parses value then ok tt else err not_parsed

-- `Value::is_null`
abbrev pub is_null : {k : Codec} → Json k → Bool
is_null null = true
is_null (boolean b) = false
is_null (number n) = false
is_null (string t) = false
is_null (array xs) = false
is_null (object es) = false

-- `assert_optional` and `assert_fill_optional`
abbrev pub assert_optional : {k : Codec} → Json k → Bool → Result InputError (Unit {0})
assert_optional value optional = if optional && is_null value then ok tt else err type_mismatch

abbrev pub assert_fill_optional : Bool → Result InputError (Unit {0})
assert_fill_optional optional = if optional then ok tt else err missing_value
