-- ===== src/Template/Typed/Filled.antt =====
-- A template that conforms before the defaults are filled in conforms then.
use open_ark.Prelude.{ℕ, true, false, Option, none, some, List, [], ◌∷◌, ◌++◌}
use open_ark.Template.{
  Codec, Json, null, boolean, number, string, array, object, Entries, no_entries, entry, FieldKind,
  none_field, boolean_field, integer_field, number_field, string_field, one_of_strings_field,
  dynamic_object, static_object, enumerate_object, date_time_field, ip_field, uuid_field,
  string_array_field, object_field, object_array_field, Field, Fields,
}
use open_ark.Template.Visit.{find_field}
use open_ark.Template.Typed.{IsOf, IsLeaf, IsMapOf, IsMap, Conforms, AllConform}

module _ {k : Codec} where
  IsOf-filled : (kd : FieldKind k) (v : Json k) → IsOf false kd v → IsOf true kd v
  IsOf-filled none_field v h = h
  IsOf-filled (boolean_field default) v h = h
  IsOf-filled (integer_field default minimum maximum) v h = h
  IsOf-filled (number_field default minimum maximum) v h = h
  IsOf-filled (string_field default kind) v h = h
  IsOf-filled (one_of_strings_field default choices) v h = h
  IsOf-filled (date_time_field default) v h = h
  IsOf-filled ip_field v h = h
  IsOf-filled uuid_field v h = h
  IsOf-filled string_array_field v h = h
  IsOf-filled (object_field children kind) v h = h
  IsOf-filled (object_array_field children) v h = absurd (cc)

  IsLeaf-filled : (o : Option (Field k)) (v : Json k) → IsLeaf false o v → IsLeaf true o v
  IsLeaf-filled none v h = h
  IsLeaf-filled (some field) v h = IsOf-filled field.kind v h

  IsMapOf-imp : (kd : FieldKind k) (X Y : Type 0) → (X → Y) → IsMapOf kd Unit X → IsMapOf kd Unit Y
  IsMapOf-imp none_field X Y f h = h
  IsMapOf-imp (boolean_field default) X Y f h = h
  IsMapOf-imp (integer_field default minimum maximum) X Y f h = h
  IsMapOf-imp (number_field default minimum maximum) X Y f h = h
  IsMapOf-imp (string_field default kind) X Y f h = h
  IsMapOf-imp (one_of_strings_field default choices) X Y f h = h
  IsMapOf-imp (date_time_field default) X Y f h = h
  IsMapOf-imp ip_field X Y f h = h
  IsMapOf-imp uuid_field X Y f h = h
  IsMapOf-imp string_array_field X Y f h = h
  IsMapOf-imp (object_field children dynamic_object) X Y f h = tt
  IsMapOf-imp (object_field children static_object) X Y f h = f h
  IsMapOf-imp (object_field children (enumerate_object choices)) X Y f h = f h
  IsMapOf-imp (object_array_field children) X Y f h = h

  IsMap-imp : (o : Option (Field k)) (X Y : Type 0) → (X → Y) → IsMap o Unit X → IsMap o Unit Y
  IsMap-imp none X Y f h = h
  IsMap-imp (some field) X Y f h = IsMapOf-imp field.kind X Y f h

mutual
  unfolding Conforms AllConform

  pub Conforms-filled :
      {k : Codec} (spec : Fields k) (base : List ℕ) (v : Json k)
      → Conforms false spec base v
      → Conforms true spec base v
  Conforms-filled spec base null h = tt
  Conforms-filled spec base (boolean b) h = IsLeaf-filled (find_field base spec) (boolean b) h
  Conforms-filled spec base (number n) h = IsLeaf-filled (find_field base spec) (number n) h
  Conforms-filled spec base (string t) h = IsLeaf-filled (find_field base spec) (string t) h
  Conforms-filled spec base (array xs) h = IsLeaf-filled (find_field base spec) (array xs) h
  Conforms-filled spec base (object es) h =
      IsMap-imp (find_field base spec) (AllConform false spec base es)
        (AllConform true spec base es) (λ all. AllConform-filled spec base es all) h

  AllConform-filled :
      {k : Codec} (spec : Fields k) (base : List ℕ) (es : Entries k)
      → AllConform false spec base es
      → AllConform true spec base es
  AllConform-filled spec base no_entries all = tt
  AllConform-filled spec base (entry c v es) all =
      (Conforms-filled spec (base ++ c ∷ []) v all.0, AllConform-filled spec base es all.1)
