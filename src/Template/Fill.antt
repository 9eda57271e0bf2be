-- ===== src/Template/Fill.antt =====
-- The defaults of the fields that are left out, `fill_default_value` of
-- crates/dash/provider/src/input.rs, and the conversion of an item,
-- crates/dash/provider/src/storage/kubernetes.rs. The time of a default, `now`, is one for all fields.
use open_ark.Prelude.{
  ℕ, zero, suc, Bool, true, false, ◌||◌, Option, none, some, List, [], ◌∷◌, last, if◌then◌else◌,
  Result, ok, err,
}
use open_ark.Template.{
  Part, index, child, Codec, Json, null, boolean, number, string, array, object, no_items,
  no_entries, FieldKind, none_field, ip_field, uuid_field, string_array_field, boolean_field,
  integer_field, number_field, string_field, one_of_strings_field, date_time_field, object_field,
  object_array_field, Field, Fields, InputError, no_such_field, not_parsed, stack_overflow,
}
use open_ark.Template.Checks.{is_null, assert_fill_optional}
use open_ark.Template.Visit.{
  done, failed, descend, Visited, visit_root, Updated, after_visit, and_next, sub_name, items_len,
}
use open_ark.Template.Item.{update_item, settle}

-- The loops of `fill_default_value`: over the children of an object, or over the items of an array.
pub data Loop : Type 0 where
  over_children : Bool → List (List ℕ) → Loop
  over_items : Bool → ℕ → Loop

-- `imp::get_children_names`: the last word of a name, where there is one
abbrev pub child_part : List ℕ → Option Part
child_part name = elim (last name) [ some c ↦ some (child c) | none ↦ none ]

abbrev pub range_from : ℕ → ℕ → List ℕ
range_from i zero = []
range_from i (suc n) = i ∷ range_from (suc i) n

module _ {k : Codec} where
  -- A field that is left out gets its default, or may be missing.
  abbrev pub fill_null : Option (Json k) → Bool → Json k → Visited k Loop
  fill_null (some default) optional null = some (default, done)
  fill_null none optional null = settle (assert_fill_optional optional) null
  fill_null default optional (boolean b) = some (boolean b, done)
  fill_null default optional (number n) = some (number n, done)
  fill_null default optional (string t) = some (string t, done)
  fill_null default optional (array xs) = some (array xs, done)
  fill_null default optional (object es) = some (object es, done)

  abbrev pub default_map : {T : Type 0} → (T → Json k) → Option T → Option (Json k)
  default_map f none = none
  default_map f (some t) = some (f t)

  -- The default of a number is printed and parsed.
  abbrev pub fill_parsed : Option (k.Number) → Bool → Json k → Visited k Loop
  fill_parsed (some n) optional old = fill_null (some (number n)) optional old
  fill_parsed none optional null = some (null, failed not_parsed)
  fill_parsed none optional (boolean b) = some (boolean b, done)
  fill_parsed none optional (number n) = some (number n, done)
  fill_parsed none optional (string t) = some (string t, done)
  fill_parsed none optional (array xs) = some (array xs, done)
  fill_parsed none optional (object es) = some (object es, done)

  abbrev pub fill_number : Option (k.Float) → Bool → Json k → Visited k Loop
  fill_number none optional old = fill_null none optional old
  fill_number (some x) optional old = fill_parsed (k.reparse_f64 x) optional old

  abbrev pub or_else : Json k → Json k → Json k
  or_else default old = if is_null old then default else old

  abbrev pub array_len : Json k → ℕ
  array_len (array xs) = items_len xs
  array_len null = 0
  array_len (boolean b) = 0
  array_len (number n) = 0
  array_len (string t) = 0
  array_len (object es) = 0

  -- An object array, or an item of it
  abbrev pub fill_array : Bool → List (List ℕ) → Bool → Json k → Visited k Loop
  fill_array true children optional old =
      let filled = or_else (array no_items) old in
      some (filled, descend (over_items optional (array_len filled)))
  fill_array false children optional old =
      some (or_else (object no_entries) old, descend (over_children optional children))

  -- The `match` on the kind of a field, of `fill_default_value`
  abbrev pub fill_kind : ℕ → Bool → FieldKind k → Bool → Json k → Visited k Loop
  fill_kind now is_atom none_field optional old = some (null, done)
  fill_kind now is_atom (boolean_field default) optional old =
      fill_null (default_map boolean default) optional old
  fill_kind now is_atom (integer_field default minimum maximum) optional old =
      fill_null (default_map (λ i. number (k.from_i64 i)) default) optional old
  fill_kind now is_atom (number_field default minimum maximum) optional old =
      fill_number default optional old
  fill_kind now is_atom (string_field default kind) optional old =
      fill_null (default_map string default) optional old
  fill_kind now is_atom (one_of_strings_field default choices) optional old =
      fill_null (default_map string default) optional old
  fill_kind now is_atom (date_time_field default) optional old =
      fill_null (if default then some (string now) else none) optional old
  fill_kind now is_atom ip_field optional old = fill_null none optional old
  fill_kind now is_atom uuid_field optional old = fill_null none optional old
  fill_kind now is_atom string_array_field optional old = some (or_else (array no_items) old, done)
  fill_kind now is_atom (object_field children kind) optional old =
      some (or_else (object no_entries) old, descend (over_children optional children))
  fill_kind now is_atom (object_array_field children) optional old =
      fill_array is_atom children optional old

  abbrev pub fill : ℕ → Bool → Bool → Field k → Json k → Visited k Loop
  fill now is_atom optional field old =
      fill_kind now is_atom field.kind (optional || field.optional) old

  -- A loop that stops at the first error
  unfoldable pub each : {A : Type 0} → (A → Json k → Updated k) → List A → Json k → Updated k
  each body [] map = some (map, none)
  each body (a ∷ rest) map = and_next (body a map) (λ next. each body rest next)

  -- The loops, by what is done at a part: whether it may be missing, and whether it stands by itself
  abbrev pub run_loop : (Bool → Bool → Option Part → Json k → Updated k) → Loop → Json k → Updated k
  run_loop body (over_children optional names) map =
      each (λ name next. body optional true (child_part name) next) names map
  run_loop body (over_items optional n) map =
      each (λ i next. body optional false (some (index i)) next) (range_from 0 n) map

  -- `fill_default_value`, on fuel that stands for the stack
  unfoldable pub fill_default_value :
      ℕ → ℕ → Fields k → List Part → Bool → Bool → Json k → Updated k
  fill_default_value zero now spec path optional is_atom map = some (map, some stack_overflow)
  fill_default_value (suc fuel) now spec path optional is_atom map =
      after_visit (visit_root (fill now is_atom optional) (failed no_such_field) spec path map)
        (λ loop next.
          run_loop
            (λ inherited atom part m.
              fill_default_value fuel now spec (sub_name path part) inherited atom m)
            loop next)

  -- `ItemTemplate::finalize`, on what filling leaves
  abbrev pub outcome : Updated k → Option (Result InputError (Json k))
  outcome none = none
  outcome (some (map, none)) = some (ok map)
  outcome (some (map, some e)) = some (err e)

  -- `convert_model_item`, on an item of Kubernetes; none is a panic.
  unfoldable pub convert_model_item :
      ℕ → ℕ → Fields k → Json k → Option (Result InputError (Json k))
  convert_model_item fuel now spec value = outcome (
      and_next (update_item spec [] value false null)
        (λ map. fill_default_value fuel now spec [] false true map))
