-- ===== src/Template/Typed/Views.antt =====
-- The views of a value, and the values that are no map.
use open_ark.Prelude.{ℕ, Bool, Option, some, ◌≡◌, refl, ap, and_then, nat_eq}
use mathlib.Core.Option.{some-injective}
use open_ark.Template.{
  Codec, Json, null, boolean, number, string, array, object, Items, no_items, item, Entries,
  FieldKind, none_field, ip_field, uuid_field, string_array_field, boolean_field, integer_field,
  number_field, string_field, one_of_strings_field, date_time_field, object_field,
  object_array_field,
}
use open_ark.Template.Item.{as_number, as_str, as_bool, only_strings}
use open_ark.Template.Typed.{AllStrings, IsOf}

module _ {k : Codec} where
  as_number-some : (v : Json k) (n : k.Number) → as_number v ≡ some n → v ≡ number n
  as_number-some (number m) n h = ap number (some-injective m n h)
  as_number-some null n h = absurd (cc)
  as_number-some (boolean b) n h = absurd (cc)
  as_number-some (string t) n h = absurd (cc)
  as_number-some (array xs) n h = absurd (cc)
  as_number-some (object es) n h = absurd (cc)

  pub as_str-some : (v : Json k) (t : ℕ) → as_str v ≡ some t → v ≡ string t
  as_str-some (string u) t h = ap string (some-injective u t h)
  as_str-some null t h = absurd (cc)
  as_str-some (boolean b) t h = absurd (cc)
  as_str-some (number n) t h = absurd (cc)
  as_str-some (array xs) t h = absurd (cc)
  as_str-some (object es) t h = absurd (cc)

  pub as_bool-some : (v : Json k) (b : Bool) → as_bool v ≡ some b → v ≡ boolean b
  as_bool-some (boolean c) b h = ap boolean (some-injective c b h)
  as_bool-some null b h = absurd (cc)
  as_bool-some (number n) b h = absurd (cc)
  as_bool-some (string t) b h = absurd (cc)
  as_bool-some (array xs) b h = absurd (cc)
  as_bool-some (object es) b h = absurd (cc)

  pub viewed_number :
      {T : Type 0} (v : Json k) (f : k.Number → Option T) (x : T)
      → and_then (as_number v) f ≡ some x
      → (n : k.Number) × (v ≡ number n) × (f n ≡ some x)
  viewed_number (number n) f x h = (n, refl, h)
  viewed_number null f x h = absurd (cc)
  viewed_number (boolean b) f x h = absurd (cc)
  viewed_number (string t) f x h = absurd (cc)
  viewed_number (array xs) f x h = absurd (cc)
  viewed_number (object es) f x h = absurd (cc)

  pub only_strings-AllStrings : (xs : Items k) → AllStrings (only_strings xs)
  only_strings-AllStrings no_items = tt
  only_strings-AllStrings (item (string t) xs) = ((t, refl), only_strings-AllStrings xs)
  only_strings-AllStrings (item null xs) = only_strings-AllStrings xs
  only_strings-AllStrings (item (boolean b) xs) = only_strings-AllStrings xs
  only_strings-AllStrings (item (number n) xs) = only_strings-AllStrings xs
  only_strings-AllStrings (item (array ys) xs) = only_strings-AllStrings xs
  only_strings-AllStrings (item (object es) xs) = only_strings-AllStrings xs

  pub object-IsOf :
      (filled : Bool) (kd : FieldKind k) (es : Entries k) → IsOf filled kd (object es) → ⊥
  object-IsOf filled none_field es h = h
  object-IsOf filled (boolean_field default) es (b, e) = cc
  object-IsOf filled (integer_field default minimum maximum) es (n, i, e, r, rest) = cc
  object-IsOf filled (number_field default minimum maximum) es (n, x, e, r, rest) = cc
  object-IsOf filled (string_field default kind) es (t, e, rest) = cc
  object-IsOf filled (one_of_strings_field default choices) es (t, e, rest) = cc
  object-IsOf filled (date_time_field default) es (t, e, rest) = cc
  object-IsOf filled ip_field es (t, e, rest) = cc
  object-IsOf filled uuid_field es (t, e, rest) = cc
  object-IsOf filled string_array_field es (xs, e, rest) = cc
  object-IsOf filled (object_field children kind) es h = h
  object-IsOf filled (object_array_field children) es (f, e) = cc
