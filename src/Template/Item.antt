-- ===== src/Template/Item.antt =====
-- `ItemTemplate` of crates/dash/provider/src/input.rs: what a value of the outside does to a template.
use open_ark.Prelude.{ℕ, suc, and_then, Bool, ◌||◌, Option, none, some, List, Result, ok, err}
use open_ark.Template.{
  Part, index, Codec, Json, null, boolean, number, string, array, object, Items, no_items, item,
  Entries, no_entries, entry, ObjectKind, dynamic_object, static_object, enumerate_object,
  FieldKind, none_field, ip_field, uuid_field, string_array_field, boolean_field, integer_field,
  number_field, string_field, one_of_strings_field, date_time_field, object_field,
  object_array_field, Field, Fields, InputError,
}
use open_ark.Template.Checks.{
  integer_cmp, assert_bounds, assert_string, assert_contains, assert_type, assert_optional,
}
use open_ark.Template.Visit.{
  done, failed, descend, Visited, visit_root, Updated, after_visit, and_next, sub_name,
}

-- `Value::as_bool` and the other views of a value
module _ {k : Codec} where
  abbrev pub as_number : Json k → Option (k.Number)
  as_number (number n) = some n
  as_number null = none
  as_number (boolean b) = none
  as_number (string t) = none
  as_number (array xs) = none
  as_number (object es) = none

  abbrev pub as_str : Json k → Option ℕ
  as_str (string t) = some t
  as_str null = none
  as_str (boolean b) = none
  as_str (number n) = none
  as_str (array xs) = none
  as_str (object es) = none

  abbrev pub as_bool : Json k → Option Bool
  as_bool (boolean b) = some b
  as_bool null = none
  as_bool (number n) = none
  as_bool (string t) = none
  as_bool (array xs) = none
  as_bool (object es) = none

  -- The strings of an array
  abbrev pub only_strings : Items k → Items k
  only_strings no_items = no_items
  only_strings (item (string t) xs) = item (string t) (only_strings xs)
  only_strings (item null xs) = only_strings xs
  only_strings (item (boolean b) xs) = only_strings xs
  only_strings (item (number n) xs) = only_strings xs
  only_strings (item (array ys) xs) = only_strings xs
  only_strings (item (object es) xs) = only_strings xs

  -- The end of an arm: the value is stored if its test passes, and the field is left as it is if not.
  abbrev pub store : Json k → Result InputError (Unit {0}) → Json k → Visited k Bool
  store value (ok u) old = some (value, done)
  store value (err e) old = some (old, failed e)

  -- `assert_optional`, which stores nothing
  abbrev pub settle : {D : Type 0} → Result InputError (Unit {0}) → Json k → Visited k D
  settle (ok u) old = some (old, done)
  settle (err e) old = some (old, failed e)

  abbrev pub store_view :
      {T : Type 0}
      → Option T
      → (T → Result InputError (Unit {0}))
      → Json k
      → Bool
      → Json k
      → Visited k Bool
  store_view (some t) check value optional old = store value (check t) old
  store_view none check value optional old = settle (assert_optional value optional) old

  -- The arms of the aggregations, by the value
  abbrev pub put_strings : Json k → Bool → Json k → Visited k Bool
  put_strings (array xs) optional old = some (array (only_strings xs), done)
  put_strings null optional old = settle (assert_optional {k = k} null optional) old
  put_strings (boolean b) optional old = settle (assert_optional {k = k} (boolean b) optional) old
  put_strings (number n) optional old = settle (assert_optional {k = k} (number n) optional) old
  put_strings (string t) optional old = settle (assert_optional {k = k} (string t) optional) old
  put_strings (object es) optional old = settle (assert_optional {k = k} (object es) optional) old

  abbrev pub put_entries : ObjectKind → Entries k → Bool → Json k → Visited k Bool
  put_entries dynamic_object es optional old = some (object es, done)
  put_entries static_object es optional old = some (old, descend optional)
  put_entries (enumerate_object choices) es optional old = some (old, descend optional)

  abbrev pub put_object : ObjectKind → Json k → Bool → Json k → Visited k Bool
  put_object kind (object es) optional old = put_entries kind es optional old
  put_object kind null optional old = settle (assert_optional {k = k} null optional) old
  put_object kind (boolean b) optional old =
      settle (assert_optional {k = k} (boolean b) optional) old
  put_object kind (number n) optional old = settle (assert_optional {k = k} (number n) optional) old
  put_object kind (string t) optional old = settle (assert_optional {k = k} (string t) optional) old
  put_object kind (array xs) optional old = settle (assert_optional {k = k} (array xs) optional) old

  abbrev pub put_items : Json k → Bool → Json k → Visited k Bool
  put_items (array xs) optional old = some (old, descend optional)
  put_items null optional old = settle (assert_optional {k = k} null optional) old
  put_items (boolean b) optional old = settle (assert_optional {k = k} (boolean b) optional) old
  put_items (number n) optional old = settle (assert_optional {k = k} (number n) optional) old
  put_items (string t) optional old = settle (assert_optional {k = k} (string t) optional) old
  put_items (object es) optional old = settle (assert_optional {k = k} (object es) optional) old

  -- The `match` on the kind of a field, of `update_field_value_impl`
  abbrev pub put_kind : FieldKind k → Json k → Bool → Json k → Visited k Bool
  put_kind none_field value optional old = some (null, done)
  put_kind (boolean_field default) value optional old =
      store_view (as_bool value) (λ b. ok tt) value optional old
  put_kind (integer_field default minimum maximum) value optional old =
      store_view (and_then (as_number value) k.as_i64)
        (λ i. assert_bounds integer_cmp i minimum maximum) value optional old
  put_kind (number_field default minimum maximum) value optional old =
      store_view (and_then (as_number value) k.as_f64)
        (λ x. assert_bounds k.float_cmp x minimum maximum) value optional old
  put_kind (string_field default kind) value optional old =
      store_view (as_str value) (λ t. assert_string k t kind) value optional old
  put_kind (one_of_strings_field default choices) value optional old =
      store_view (as_str value) (λ t. assert_contains choices t) value optional old
  put_kind (date_time_field default) value optional old =
      store_view (as_str value) (λ t. assert_type k.is_date_time t) value optional old
  put_kind ip_field value optional old =
      store_view (as_str value) (λ t. assert_type k.is_ip t) value optional old
  put_kind uuid_field value optional old =
      store_view (as_str value) (λ t. assert_type k.is_uuid t) value optional old
  put_kind string_array_field value optional old = put_strings value optional old
  put_kind (object_field children kind) value optional old = put_object kind value optional old
  put_kind (object_array_field children) value optional old = put_items value optional old

  abbrev pub put : Json k → Bool → Field k → Json k → Visited k Bool
  put value optional field old = put_kind field.kind value (optional || field.optional) old

-- `ItemTemplate::update_field_value_impl`, with the loops over entries and items
unfoldable mutual
  pub update_item : {k : Codec} → Fields k → List Part → Json k → Bool → Json k → Updated k
  update_item spec path (object es) optional map =
      after_visit (visit_root (put (object es) optional) done spec path map)
        (λ inherited next. update_entries spec path es inherited next)
  update_item spec path (array xs) optional map =
      after_visit (visit_root (put (array xs) optional) done spec path map)
        (λ inherited next. update_items spec path 0 xs inherited next)
  update_item spec path null optional map =
      after_visit (visit_root (put null optional) done spec path map)
        (λ inherited next. some (next, none))
  update_item spec path (boolean b) optional map =
      after_visit (visit_root (put (boolean b) optional) done spec path map)
        (λ inherited next. some (next, none))
  update_item spec path (number n) optional map =
      after_visit (visit_root (put (number n) optional) done spec path map)
        (λ inherited next. some (next, none))
  update_item spec path (string t) optional map =
      after_visit (visit_root (put (string t) optional) done spec path map)
        (λ inherited next. some (next, none))

  pub update_entries : {k : Codec} → Fields k → List Part → Entries k → Bool → Json k → Updated k
  update_entries spec path no_entries optional map = some (map, none)
  update_entries {k} spec path (entry key value es) optional map =
      and_next (update_item spec (sub_name path (k.snake_case key)) value optional map)
        (λ next. update_entries spec path es optional next)

  pub update_items : {k : Codec} → Fields k → List Part → ℕ → Items k → Bool → Json k → Updated k
  update_items spec path i no_items optional map = some (map, none)
  update_items spec path i (item value xs) optional map =
      and_next (update_item spec (sub_name path (some (index i))) value optional map)
        (λ next. update_items spec path (suc i) xs optional next)
