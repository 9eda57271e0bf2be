-- ===== src/Template/Typed.antt =====
-- When a value has the type that the fields of a model give it. Nothing here is a function of the code:
-- the predicates describe a value by its model, from the root down.
pub mod Visits
pub mod Tests
pub mod Views
pub mod Puts
pub mod Updates
pub mod Fills
pub mod Filled
pub mod Converts
use open_ark.Prelude.{
  ℕ, ◌≤◌, ◌<◌, Bool, true, false, Option, none, some, List, [], ◌∷◌, ◌++◌, ◌≡◌, ◌⊎◌, contains,
  nat_eq,
}
use open_ark.Template.{
  Ordering, less, equal, greater, Codec, Json, null, boolean, number, string, array, object, Items,
  no_items, item, Entries, no_entries, entry, StringKind, dynamic_string, static_string,
  range_string, ObjectKind, dynamic_object, static_object, enumerate_object, FieldKind, none_field,
  ip_field, uuid_field, string_array_field, boolean_field, integer_field, number_field,
  string_field, one_of_strings_field, date_time_field, object_field, object_array_field, Field,
  Fields,
}
use open_ark.Prelude.Int.{ℤ}
use open_ark.Template.Checks.{integer_cmp}
use open_ark.Template.Visit.{find_field}

-- A number within its bounds, and the length of a text
abbrev pub IsBounded : {T : Type 0} → (T → T → Option Ordering) → T → Option T → Option T → Type 0
IsBounded {T} cmp x minimum maximum =
    ((bound : T) → minimum ≡ some bound → (cmp x bound ≡ some greater) ⊎ (cmp x bound ≡ some equal))
    × ((bound : T) → maximum ≡ some bound → (cmp x bound ≡ some less) ⊎ (cmp x bound ≡ some equal))

abbrev pub HasLength : ℕ → StringKind → Type 0
HasLength len dynamic_string = Unit
HasLength len (static_string n) = len ≡ n
HasLength len (range_string minimum maximum) =
    ((least : ℕ) → minimum ≡ some least → least ≤ len) × (len ≤ maximum)

abbrev pub AllStrings : {k : Codec} → Items k → Type 0
AllStrings no_items = Unit
AllStrings {k} (item x xs) = ((t : ℕ) × (x ≡ string t)) × AllStrings xs

module _ {k : Codec} where
  abbrev pub IsText : (ℕ → Type 0) → Json k → Type 0
  IsText P json = (t : ℕ) × (json ≡ string t) × P t

  -- A value that is no map, by the kind of its field. An object array has no items, and is there once
  -- the defaults are filled in.
  abbrev pub IsOf : Bool → FieldKind k → Json k → Type 0
  IsOf filled none_field json = ⊥
  IsOf filled (boolean_field default) json = (b : Bool) × (json ≡ boolean b)
  IsOf filled (integer_field default minimum maximum) json =
      (n : k.Number) × (i : ℤ) × (json ≡ number n)
      × (k.as_i64 n ≡ some i)
      × IsBounded integer_cmp i minimum maximum
  IsOf filled (number_field default minimum maximum) json =
      (n : k.Number) × (x : k.Float) × (json ≡ number n)
      × (k.as_f64 n ≡ some x)
      × IsBounded k.float_cmp x minimum maximum
  IsOf filled (string_field default kind) json = IsText (λ t. HasLength (k.text_len t) kind) json
  IsOf filled (one_of_strings_field default choices) json =
      IsText (λ t. contains choices t ≡ true) json
  IsOf filled (date_time_field default) json = IsText (λ t. k.is_date_time t ≡ true) json
  IsOf filled ip_field json = IsText (λ t. k.is_ip t ≡ true) json
  IsOf filled uuid_field json = IsText (λ t. k.is_uuid t ≡ true) json
  IsOf filled string_array_field json = (xs : Items k) × (json ≡ array xs) × AllStrings xs
  IsOf filled (object_field children kind) json = ⊥
  IsOf filled (object_array_field children) json = (filled ≡ true) × (json ≡ array no_items)

  abbrev pub IsLeaf : Bool → Option (Field k) → Json k → Type 0
  IsLeaf filled none json = ⊥
  IsLeaf filled (some field) json = IsOf filled field.kind json

  -- Of the kinds of fields only an object holds a map: D for a dynamic one, X for another.
  abbrev pub IsMapOf : FieldKind k → Type 0 → Type 0 → Type 0
  IsMapOf none_field D X = ⊥
  IsMapOf (boolean_field default) D X = ⊥
  IsMapOf (integer_field default minimum maximum) D X = ⊥
  IsMapOf (number_field default minimum maximum) D X = ⊥
  IsMapOf (string_field default kind) D X = ⊥
  IsMapOf (one_of_strings_field default choices) D X = ⊥
  IsMapOf (date_time_field default) D X = ⊥
  IsMapOf ip_field D X = ⊥
  IsMapOf uuid_field D X = ⊥
  IsMapOf string_array_field D X = ⊥
  IsMapOf (object_field children dynamic_object) D X = D
  IsMapOf (object_field children static_object) D X = X
  IsMapOf (object_field children (enumerate_object choices)) D X = X
  IsMapOf (object_array_field children) D X = ⊥

  abbrev pub IsMap : Option (Field k) → Type 0 → Type 0 → Type 0
  IsMap none D X = ⊥
  IsMap (some field) D X = IsMapOf field.kind D X

-- The value of a field: it is left out, or has the type of the field, and so have its parts, unless it
-- is a dynamic object.
unfoldable mutual
  pub Conforms : {k : Codec} → Bool → Fields k → List ℕ → Json k → Type 0
  Conforms filled spec base null = Unit
  Conforms {k} filled spec base (boolean b) = IsLeaf filled (find_field base spec) (boolean b)
  Conforms {k} filled spec base (number n) = IsLeaf filled (find_field base spec) (number n)
  Conforms {k} filled spec base (string t) = IsLeaf filled (find_field base spec) (string t)
  Conforms {k} filled spec base (array xs) = IsLeaf filled (find_field base spec) (array xs)
  Conforms filled spec base (object es) =
      IsMap (find_field base spec) Unit (AllConform filled spec base es)

  pub AllConform : {k : Codec} → Bool → Fields k → List ℕ → Entries k → Type 0
  AllConform filled spec base no_entries = Unit
  AllConform filled spec base (entry c v es) =
      Conforms filled spec (base ++ c ∷ []) v × AllConform filled spec base es
