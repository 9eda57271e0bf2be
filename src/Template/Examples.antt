-- ===== src/Template/Examples.antt =====
-- Items of concrete models, with what their conversion gives.
use open_ark.Prelude.{
  ℕ, Bool, true, false, none, some, List, [], ◌∷◌, ◌≡◌, ◌≢◌, refl, subst, ok, err, arith, ltb,
  if◌then◌else◌, ◌⊎◌, inl,
}
use mathlib.Core.Option.{some-injective}
use open_ark.Prelude.Int.{ℤ, pos}
use open_ark.Template.{
  less, equal, greater, index, child, Codec, IsCodec, Json, null, boolean, number, string, array,
  object, no_items, item, no_entries, entry, static_object, range_string, Field, Fields, FieldKind,
  integer_field, number_field, string_field, object_field, object_array_field, boolean_field,
  missing_value, out_of_range, stack_overflow,
}
use open_ark.Template.Visit.{visit_root, visit, find_field, find_entry, set_entry}
use open_ark.Template.Item.{update_item, update_entries, update_items}
use open_ark.Template.Fill.{fill_default_value, each, convert_model_item}
use open_ark.Template.Checks.{integer_cmp}
use open_ark.Template.Typed.{IsBounded, Conforms}
use open_ark.Template.Typed.Fills.{IsModel}
use open_ark.Template.Required.{IsPresent, IsRequired}
use open_ark.Template.Required.Fills.{convert_model_item-IsPresent}
use open_ark.Template.Typed.Converts.{convert_model_item-Conforms, convert_model_item_ends}

-- Numbers are integers, of which 8 is what any default with a fraction is read back as; a text is as long
-- as its number says, and a key below ten is an index.
abbrev codec : Codec
codec = record {
  Number = ℤ;
  Float = ℤ;
  as_i64 = λ n. some n;
  as_f64 = λ n. some n;
  from_i64 = λ n. n;
  reparse_f64 = λ n. some (pos 8);
  float_cmp = λ a b. some equal;
  text_len = λ t. t;
  is_date_time = λ t. true;
  is_ip = λ t. true;
  is_uuid = λ t. true;
  snake_case = λ t. if ltb t 10 then some (index t) else some (child t);
}

codec-IsCodec : IsCodec codec
codec-IsCodec = record { read_i64 = λ i. refl }

abbrev field_of : List ℕ → FieldKind codec → Bool → Field codec
field_of name kind optional = record { name = name; kind = kind; optional = optional }

-- /, with /20/, from 1 to 5 and 3 by default, /21/, a text of at most 64, /22/, which may be
-- missing, and /23/, a number that is 7 by default
abbrev model : Fields codec
model =
    field_of [] (object_field ((20 ∷ []) ∷ (21 ∷ []) ∷ (22 ∷ []) ∷ (23 ∷ []) ∷ []) static_object)
      false
    ∷ field_of (20 ∷ []) (integer_field (some (pos 3)) (some (pos 1)) (some (pos 5))) false
    ∷ field_of (21 ∷ []) (string_field none (range_string none 64)) false
    ∷ field_of (22 ∷ []) (boolean_field none) true
    ∷ field_of (23 ∷ []) (number_field (some (pos 7)) none none) false
    ∷ []

three_IsBounded : IsBounded integer_cmp (pos 3) (some (pos 1)) (some (pos 5))
three_IsBounded = (
  λ bound e.
      subst (λ b. (integer_cmp (pos 3) b ≡ some greater) ⊎ (integer_cmp (pos 3) b ≡ some equal))
        (some-injective (pos 1) bound e) (inl refl),
  λ bound e.
      subst (λ b. (integer_cmp (pos 3) b ≡ some less) ⊎ (integer_cmp (pos 3) b ≡ some equal))
        (some-injective (pos 5) bound e) (inl refl),
)

eight_IsBounded :
    (x n : ℤ)
    → some (pos 7) ≡ some x
    → some (pos 8) ≡ some n
    → (y : ℤ) × (some n ≡ some y) × IsBounded codec.float_cmp y none none
eight_IsBounded x n e made = (n, refl, (λ bound e'. absurd (cc), λ bound e'. absurd (cc)))

is_named : (c : ℕ) → ◌≢◌ {A = List ℕ} (c ∷ []) []
is_named c e = cc

model-IsModel : IsModel 0 1 model
model-IsModel = (
  ((is_named 20, (is_named 21, (is_named 22, (is_named 23, tt)))), omega arith),
  (
    (
      λ i e.
          subst (λ n. IsBounded integer_cmp n (some (pos 1)) (some (pos 5)))
            (some-injective (pos 3) i e) three_IsBounded,
      omega arith,
    ),
    ((λ t e. absurd (cc), omega arith), ((tt, omega arith), ((eight_IsBounded, omega arith), tt))),
  ),
)

abbrev an_item : Json codec
an_item = object (entry 21 (string 40) (entry 99 (boolean true) no_entries))

abbrev converted : Json codec
converted = object (
    entry 21 (string 40)
      (entry 20 (number (pos 3)) (entry 22 null (entry 23 (number (pos 8)) no_entries))))

item_converts : convert_model_item 3 0 model an_item ≡ some (ok converted)
unfolding convert_model_item update_item update_entries visit_root visit find_field find_entry
    set_entry fill_default_value each
item_converts = refl

-- The text is missing.
item_is_incomplete : convert_model_item 3 0 model (object no_entries) ≡ some (err missing_value)
unfolding convert_model_item update_item update_entries visit_root visit find_field find_entry
    set_entry fill_default_value each
item_is_incomplete = refl

-- Six is out of the bounds.
item_is_out_of_range :
    convert_model_item 3 0 model (object (entry 20 (number (pos 6)) no_entries))
    ≡ some (err out_of_range)
unfolding convert_model_item update_item update_entries visit_root visit find_field find_entry
    set_entry
item_is_out_of_range = refl

-- An object array with one item is a panic.
abbrev with_array : Fields codec
with_array =
    field_of [] (object_field ((30 ∷ []) ∷ []) static_object) false
    ∷ field_of (30 ∷ []) (object_array_field []) false
    ∷ []

array_panics :
    convert_model_item 3 0 with_array
      (object (entry 30 (array (item (object no_entries) no_items)) no_entries))
    ≡ none
unfolding convert_model_item update_item update_entries update_items visit_root visit find_field
    find_entry set_entry
array_panics = refl

-- A root that lists itself among its children is filled without an end.
abbrev cyclic : Fields codec
cyclic = field_of [] (object_field ([] ∷ []) static_object) false ∷ []

cyclic_overflows : convert_model_item 5 0 cyclic (object no_entries) ≡ some (err stack_overflow)
unfolding convert_model_item update_item update_entries visit_root visit find_field
    fill_default_value each
cyclic_overflows = refl

convert_model_item-Conforms_example : Conforms true model [] converted
convert_model_item-Conforms_example =
    convert_model_item-Conforms codec codec-IsCodec 3 0 1 model an_item converted model-IsModel
      (omega arith) item_converts

convert_model_item_ends_example : convert_model_item 3 0 model an_item ≢ some (err stack_overflow)
convert_model_item_ends_example =
    convert_model_item_ends codec codec-IsCodec 3 0 1 model an_item model-IsModel (omega arith)

-- /20/ is required.
twenty_IsRequired : IsRequired model false [] (20 ∷ [])
unfolding find_field
twenty_IsRequired = (
  field_of [] (object_field ((20 ∷ []) ∷ (21 ∷ []) ∷ (22 ∷ []) ∷ (23 ∷ []) ∷ []) static_object)
      false,
  refl,
  inl refl,
  (
    field_of (20 ∷ []) (integer_field (some (pos 3)) (some (pos 1)) (some (pos 5))) false,
    refl,
    refl,
    λ e. cc,
  ),
)

convert_model_item-IsPresent_example : IsPresent (20 ∷ []) converted
convert_model_item-IsPresent_example =
    convert_model_item-IsPresent codec codec-IsCodec 3 0 1 model an_item converted (20 ∷ [])
      model-IsModel twenty_IsRequired item_converts
