-- ===== src/Template/Required/Kinds.antt =====
-- What filling does at a field: a value that is there stays, and one that is required is made.
use open_ark.Prelude.{
  ℕ, Bool, true, false, Option, none, some, List, [], ◌∷◌, ◌≡◌, ◌≢◌, refl, sym, subst,
  if◌then◌else◌,
}
use mathlib.Core.Option.{some-injective}
use open_ark.Template.{
  Codec, Json, null, boolean, number, string, array, object, no_items, no_entries, FieldKind,
  none_field, ip_field, uuid_field, string_array_field, boolean_field, integer_field, number_field,
  string_field, one_of_strings_field, date_time_field, object_field, object_array_field, Field,
  Fields,
}
use open_ark.Template.Visit.{Step, done, failed, descend, find_field}
use open_ark.Template.Fill.{
  Loop, over_children, fill_null, default_map, fill_parsed, fill_number, or_else, fill_kind,
}
use open_ark.Template.Typed.{IsOf, IsLeaf, IsMapOf, IsMap, Conforms}
use open_ark.Template.Required.{IsPresent, HasChild, children_of}
use open_ark.Template.Required.Visits.{Shows}

-- The step goes through the children.
abbrev pub Through : Bool → List (List ℕ) → Step Loop → Type 0
Through optional names done = ⊥
Through optional names (failed e) = Unit
Through optional names (descend loop) = loop ≡ over_children optional names

module _ {k : Codec} where
  pub present_is_some : (name : List ℕ) (v : Json k) → IsPresent name v → v ≢ null
  present_is_some [] v h e = h e
  present_is_some (c ∷ name) v (es, w, same, at, rest) e = absurd (cc)

  none_leaf :
      (filled : Bool) (o : Option (Field k)) (field : Field k) (v : Json k)
      → o ≡ some field
      → field.kind ≡ none_field
      → IsLeaf filled o v
      → ⊥
  none_leaf filled o field v found e h =
      subst (λ kd. IsOf filled kd v) e (subst (λ p. IsLeaf filled p v) found h)

  none_map :
      (o : Option (Field k)) (field : Field k) (X : Type 0)
      → o ≡ some field
      → field.kind ≡ none_field
      → IsMap o Unit X
      → ⊥
  none_map o field X found e h =
      subst (λ kd. IsMapOf kd Unit X) e (subst (λ p. IsMap p Unit X) found h)

  -- A field of no kind of value has none.
  pub none_is_null :
      (filled : Bool) (spec : Fields k) (base : List ℕ) (field : Field k) (v : Json k)
      → find_field base spec ≡ some field
      → field.kind ≡ none_field
      → Conforms filled spec base v
      → v ≡ null
  unfolding Conforms
  none_is_null filled spec base field null found e h = refl
  none_is_null filled spec base field (boolean b) found e h =
      absurd (none_leaf filled _ field (boolean b) found e h)
  none_is_null filled spec base field (number n) found e h =
      absurd (none_leaf filled _ field (number n) found e h)
  none_is_null filled spec base field (string t) found e h =
      absurd (none_leaf filled _ field (string t) found e h)
  none_is_null filled spec base field (array xs) found e h =
      absurd (none_leaf filled _ field (array xs) found e h)
  none_is_null filled spec base field (object es) found e h = absurd (none_map _ field _ found e h)

  fill_null-kept :
      (default : Option (Json k)) (optional : Bool) (old : Json k)
      → old ≢ null
      → fill_null default optional old ≡ some (old, done)
  fill_null-kept default optional null h = absurd (h refl)
  fill_null-kept default optional (boolean b) h = refl
  fill_null-kept default optional (number n) h = refl
  fill_null-kept default optional (string t) h = refl
  fill_null-kept default optional (array xs) h = refl
  fill_null-kept default optional (object es) h = refl

  fill_parsed-kept :
      (o : Option (k.Number)) (optional : Bool) (old : Json k)
      → old ≢ null
      → fill_parsed o optional old ≡ some (old, done)
  fill_parsed-kept (some n) optional old h = fill_null-kept (some (number n)) optional old h
  fill_parsed-kept none optional null h = absurd (h refl)
  fill_parsed-kept none optional (boolean b) h = refl
  fill_parsed-kept none optional (number n) h = refl
  fill_parsed-kept none optional (string t) h = refl
  fill_parsed-kept none optional (array xs) h = refl
  fill_parsed-kept none optional (object es) h = refl

  fill_number-kept :
      (default : Option (k.Float)) (optional : Bool) (old : Json k)
      → old ≢ null
      → fill_number default optional old ≡ some (old, done)
  fill_number-kept none optional old h = fill_null-kept none optional old h
  fill_number-kept (some x) optional old h = fill_parsed-kept (k.reparse_f64 x) optional old h

  or_else-kept : (default old : Json k) → old ≢ null → or_else default old ≡ old
  or_else-kept default null h = absurd (h refl)
  or_else-kept default (boolean b) h = refl
  or_else-kept default (number n) h = refl
  or_else-kept default (string t) h = refl
  or_else-kept default (array xs) h = refl
  or_else-kept default (object es) h = refl

  or_else-some : (default old : Json k) → default ≢ null → or_else default old ≢ null
  or_else-some default null h = h
  or_else-some default (boolean b) h = λ e. cc
  or_else-some default (number n) h = λ e. cc
  or_else-some default (string t) h = λ e. cc
  or_else-some default (array xs) h = λ e. cc
  or_else-some default (object es) h = λ e. cc

  -- What is there stays.
  pub fill_kind-kept :
      (now : ℕ) (kd : FieldKind k) (optional : Bool) (old : Json k) (Q : Json k → Type 0)
      → kd ≢ none_field
      → old ≢ null
      → Q old
      → Shows Q (fill_kind now true kd optional old)
  fill_kind-kept now none_field optional old Q some_kind h q = absurd (some_kind refl)
  fill_kind-kept now (boolean_field default) optional old Q some_kind h q =
      subst (Shows Q) (sym (fill_null-kept (default_map boolean default) optional old h)) q
  fill_kind-kept now (integer_field default minimum maximum) optional old Q some_kind h q =
      subst (Shows Q)
        (sym (fill_null-kept (default_map (λ i. number (k.from_i64 i)) default) optional old h)) q
  fill_kind-kept now (number_field default minimum maximum) optional old Q some_kind h q =
      subst (Shows Q) (sym (fill_number-kept default optional old h)) q
  fill_kind-kept now (string_field default kind) optional old Q some_kind h q =
      subst (Shows Q) (sym (fill_null-kept (default_map string default) optional old h)) q
  fill_kind-kept now (one_of_strings_field default choices) optional old Q some_kind h q =
      subst (Shows Q) (sym (fill_null-kept (default_map string default) optional old h)) q
  fill_kind-kept now (date_time_field default) optional old Q some_kind h q =
      subst (Shows Q)
        (sym (fill_null-kept (if default then some (string now) else none) optional old h)) q
  fill_kind-kept now ip_field optional old Q some_kind h q =
      subst (Shows Q) (sym (fill_null-kept none optional old h)) q
  fill_kind-kept now uuid_field optional old Q some_kind h q =
      subst (Shows Q) (sym (fill_null-kept none optional old h)) q
  fill_kind-kept now string_array_field optional old Q some_kind h q =
      subst Q (sym (or_else-kept (array no_items) old h)) q
  fill_kind-kept now (object_field children kind) optional old Q some_kind h q =
      subst Q (sym (or_else-kept (object no_entries) old h)) q
  fill_kind-kept now (object_array_field children) optional old Q some_kind h q =
      subst Q (sym (or_else-kept (array no_items) old h)) q

  fill_null-made :
      (default : Option (Json k)) (old : Json k)
      → ((v : Json k) → default ≡ some v → v ≢ null)
      → Shows (λ w. w ≢ null) (fill_null default false old)
  fill_null-made (some v) null h = h v refl
  fill_null-made none null h = tt
  fill_null-made default (boolean b) h = λ e. cc
  fill_null-made default (number n) h = λ e. cc
  fill_null-made default (string t) h = λ e. cc
  fill_null-made default (array xs) h = λ e. cc
  fill_null-made default (object es) h = λ e. cc

  mapped_made :
      {T : Type 0} (f : T → Json k) (o : Option T) (old : Json k)
      → ((t : T) → f t ≢ null)
      → Shows (λ w. w ≢ null) (fill_null (default_map f o) false old)
  mapped_made f none old h = fill_null-made none old (λ v e. absurd (cc))
  mapped_made f (some t) old h =
      fill_null-made (some (f t)) old
        (λ v e. subst (λ w. w ≢ null) (some-injective (f t) v e) (h t))

  fill_parsed-made :
      (o : Option (k.Number)) (old : Json k) → Shows (λ w. w ≢ null) (fill_parsed o false old)
  fill_parsed-made (some n) old = mapped_made number (some n) old (λ m e. cc)
  fill_parsed-made none null = tt
  fill_parsed-made none (boolean b) = λ e. cc
  fill_parsed-made none (number n) = λ e. cc
  fill_parsed-made none (string t) = λ e. cc
  fill_parsed-made none (array xs) = λ e. cc
  fill_parsed-made none (object es) = λ e. cc

  fill_number-made :
      (default : Option (k.Float)) (old : Json k)
      → Shows (λ w. w ≢ null) (fill_number default false old)
  fill_number-made none old = fill_null-made none old (λ v e. absurd (cc))
  fill_number-made (some x) old = fill_parsed-made (k.reparse_f64 x) old

  -- What may not be missing is made.
  pub fill_kind-made :
      (now : ℕ) (kd : FieldKind k) (old : Json k)
      → kd ≢ none_field
      → Shows (λ w. w ≢ null) (fill_kind now true kd false old)
  fill_kind-made now none_field old h = absurd (h refl)
  fill_kind-made now (boolean_field default) old h = mapped_made boolean default old (λ b e. cc)
  fill_kind-made now (integer_field default minimum maximum) old h =
      mapped_made (λ i. number (k.from_i64 i)) default old (λ i e. cc)
  fill_kind-made now (number_field default minimum maximum) old h = fill_number-made default old
  fill_kind-made now (string_field default kind) old h = mapped_made string default old (λ t e. cc)
  fill_kind-made now (one_of_strings_field default choices) old h =
      mapped_made string default old (λ t e. cc)
  fill_kind-made now (date_time_field false) old h = fill_null-made none old (λ v e. absurd (cc))
  fill_kind-made now (date_time_field true) old h = mapped_made string (some now) old (λ t e. cc)
  fill_kind-made now ip_field old h = fill_null-made none old (λ v e. absurd (cc))
  fill_kind-made now uuid_field old h = fill_null-made none old (λ v e. absurd (cc))
  fill_kind-made now string_array_field old h = or_else-some (array no_items) old (λ e. cc)
  fill_kind-made now (object_field children kind) old h =
      or_else-some (object no_entries) old (λ e. cc)
  fill_kind-made now (object_array_field children) old h =
      or_else-some (array no_items) old (λ e. cc)

  -- Where there is a child, the value is made and its children are gone through.
  pub fill_kind-through :
      (now : ℕ) (kd : FieldKind k) (c : ℕ) (optional : Bool) (old : Json k)
      → HasChild c (children_of kd)
      → (v : Json k) × (fill_kind now true kd optional old
          ≡ some (v, descend (over_children optional (children_of kd))))
        × (v ≢ null)
  fill_kind-through now none_field c optional old h = absurd h
  fill_kind-through now (boolean_field default) c optional old h = absurd h
  fill_kind-through now (integer_field default minimum maximum) c optional old h = absurd h
  fill_kind-through now (number_field default minimum maximum) c optional old h = absurd h
  fill_kind-through now (string_field default kind) c optional old h = absurd h
  fill_kind-through now (one_of_strings_field default choices) c optional old h = absurd h
  fill_kind-through now (date_time_field default) c optional old h = absurd h
  fill_kind-through now ip_field c optional old h = absurd h
  fill_kind-through now uuid_field c optional old h = absurd h
  fill_kind-through now string_array_field c optional old h = absurd h
  fill_kind-through now (object_field children kind) c optional old h =
      (or_else (object no_entries) old, refl, or_else-some (object no_entries) old (λ e. cc))
  fill_kind-through now (object_array_field children) c optional old h = absurd h
