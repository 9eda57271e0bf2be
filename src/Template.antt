-- ===== src/Template.antt =====
-- The items of models, of crates/dash/provider/src/input.rs, and the fields of a model,
-- crates/dash/api/src/model.rs.
--
-- A text is a number that stands for it. A name such as `/spec/0/image/` is the list of its parts;
-- the name of a field of a model has words only. A map of JSON is the list of its entries.
pub mod Checks
pub mod Visit
pub mod Item
pub mod Fill
pub mod Typed
pub mod Required
pub mod Examples
use open_ark.Prelude.{ℕ, Bool, Option, none, some, List, [], ◌∷◌, ◌≡◌, eqb, ◌&&◌, true, false}
use open_ark.Prelude.Int.{ℤ}

-- `Ordering`
pub data Ordering : Type 0 where
  less equal greater : Ordering

-- A part of a name, as `CursorIterator` reads it: a number, or another word.
pub data Part : Type 0 where
  index : ℕ → Part
  child : ℕ → Part

-- Numbers of JSON, and the texts of other packages: parsing, lengths, and the case of keys. A number with
-- a fraction that is printed and parsed again (`reparse_f64`) may come back as one beside it.
pub record Codec : Type 1 where
  pub Number : Type 0
  pub Float : Type 0
  pub as_i64 : Number → Option ℤ
  pub as_f64 : Number → Option Float
  pub from_i64 : ℤ → Number
  pub reparse_f64 : Float → Option Number
  pub float_cmp : Float → Float → Option Ordering
  pub text_len : ℕ → ℕ
  pub is_date_time : ℕ → Bool
  pub is_ip : ℕ → Bool
  pub is_uuid : ℕ → Bool
  pub snake_case : ℕ → Option Part

-- What is documented of it: an integer that is made a number is read back.
pub record IsCodec (k : Codec) : Type 0 where
  pub read_i64 : (i : ℤ) → k.as_i64 (k.from_i64 i) ≡ some i

-- `serde_json::Value`, with the rows of an array and of a map
mutual
  pub data Json (k : Codec) : Type 0 where
    null : Json k
    boolean : Bool → Json k
    number : k.Number → Json k
    string : ℕ → Json k
    array : Items k → Json k
    object : Entries k → Json k

  pub data Items (k : Codec) : Type 0 where
    no_items : Items k
    item : Json k → Items k → Items k

  pub data Entries (k : Codec) : Type 0 where
    no_entries : Entries k
    entry : ℕ → Json k → Entries k → Entries k

-- `ModelFieldKindStringSpec`, `ModelFieldKindObjectSpec` and `ModelFieldKindNativeSpec`
pub data StringKind : Type 0 where
  dynamic_string : StringKind
  static_string : ℕ → StringKind
  range_string : Option ℕ → ℕ → StringKind

pub data ObjectKind : Type 0 where
  dynamic_object static_object : ObjectKind
  enumerate_object : List ℕ → ObjectKind

pub data FieldKind (k : Codec) : Type 0 where
  none_field ip_field uuid_field string_array_field : FieldKind k
  boolean_field : Option Bool → FieldKind k
  integer_field : Option ℤ → Option ℤ → Option ℤ → FieldKind k
  number_field : Option (k.Float) → Option (k.Float) → Option (k.Float) → FieldKind k
  string_field : Option ℕ → StringKind → FieldKind k
  one_of_strings_field : Option ℕ → List ℕ → FieldKind k
  date_time_field : Bool → FieldKind k
  object_field : List (List ℕ) → ObjectKind → FieldKind k
  object_array_field : List (List ℕ) → FieldKind k

-- `ModelFieldSpec`, and the fields of a model
pub record Field (k : Codec) : Type 0 where
  pub name : List ℕ
  pub kind : FieldKind k
  pub optional : Bool

abbrev pub Fields : Codec → Type 0
Fields k = List (Field k)

-- The errors of an update
pub data InputError : Type 0 where
  no_root_field no_such_field no_array_field cannot_access out_of_range too_long wrong_length
        not_a_choice not_parsed type_mismatch missing_value stack_overflow :
      InputError
