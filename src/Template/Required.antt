-- ===== src/Template/Required.antt =====
-- The fields that are required: an item that is converted has them all.
pub mod Visits
pub mod Kinds
pub mod Keeps
pub mod Fills
use open_ark.Prelude.{
  ℕ, Bool, false, true, ◌||◌, Option, none, some, List, [], ◌∷◌, ◌++◌, ◌≡◌, ◌≢◌, ◌⊎◌,
}
use open_ark.Template.{
  Codec, Json, null, object, Entries, child, FieldKind, none_field, ip_field, uuid_field,
  string_array_field, boolean_field, integer_field, number_field, string_field,
  one_of_strings_field, date_time_field, object_field, object_array_field, Field, Fields,
}
use open_ark.Template.Visit.{find_field, find_entry}
use open_ark.Template.Fill.{child_part}

abbrev pub HasChild : ℕ → List (List ℕ) → Type 0
HasChild c [] = ⊥
HasChild c (name ∷ names) = (child_part name ≡ some (child c)) ⊎ HasChild c names

module _ {k : Codec} where
  -- There is a value under the name.
  abbrev pub IsPresent : List ℕ → Json k → Type 0
  IsPresent [] json = json ≢ null
  IsPresent (c ∷ name) json =
      (es : Entries k) × (v : Json k) × (json ≡ object es)
      × (find_entry c es ≡ some v)
      × IsPresent name v

  abbrev pub children_of : FieldKind k → List (List ℕ)
  children_of none_field = []
  children_of (boolean_field default) = []
  children_of (integer_field default minimum maximum) = []
  children_of (number_field default minimum maximum) = []
  children_of (string_field default kind) = []
  children_of (one_of_strings_field default choices) = []
  children_of (date_time_field default) = []
  children_of ip_field = []
  children_of uuid_field = []
  children_of string_array_field = []
  children_of (object_field children kind) = children
  children_of (object_array_field children) = []

  -- The model asks for a value under the name: a child of a child, and none of them may be missing.
  abbrev pub IsRequired : Fields k → Bool → List ℕ → List ℕ → Type 0
  IsRequired spec inherited base [] =
      (field : Field k) × (find_field base spec ≡ some field)
      × ((inherited || field.optional) ≡ false)
      × (field.kind ≢ none_field)
  IsRequired spec inherited base (c ∷ name) =
      (field : Field k) × (find_field base spec ≡ some field)
      × HasChild c (children_of field.kind)
      × IsRequired spec (inherited || field.optional) (base ++ c ∷ []) name
