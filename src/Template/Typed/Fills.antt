-- ===== src/Template/Typed/Fills.antt =====
-- The defaults that are filled in have the types of their fields.
use open_ark.Prelude.{
  ℕ, ◌≤◌, Bool, true, false, Option, none, some, List, [], ◌∷◌, length, ◌≡◌, ◌≢◌, ◌⊎◌, inl, inr,
  refl, sym, ap, subst, ◌∙◌, All, contains, nat_eq, eqb, eqb_iff, if◌then◌else◌, both_true,
  Bool-cases,
}
use mathlib.Core.Option.{some-injective}
use open_ark.Prelude.Int.{ℤ}
use open_ark.Template.{
  Codec, IsCodec, Json, null, boolean, number, string, array, object, no_items, no_entries,
  ObjectKind, dynamic_object, static_object, enumerate_object, FieldKind, none_field, ip_field,
  uuid_field, string_array_field, boolean_field, integer_field, number_field, string_field,
  one_of_strings_field, date_time_field, object_field, object_array_field, Field, Fields,
  stack_overflow,
}
use open_ark.Template.Checks.{integer_cmp}
use open_ark.Template.Visit.{Step, done, failed, descend, names_eqb, find_field}
use open_ark.Template.Fill.{
  Loop, over_children, over_items, fill_null, default_map, fill_parsed, fill_number, or_else,
  array_len, fill_kind,
}
use open_ark.Template.Typed.{IsBounded, HasLength, IsOf, IsLeaf, Conforms, AllConform}
use open_ark.Template.Typed.Visits.{EndsBy, IsParent}
use open_ark.Template.Typed.Puts.{IsOf-Conforms, map_here}

module _ {k : Codec} where
  -- The default of a field has its type, and its children have names, of which a dynamic object has none.
  -- Of a number with a fraction it is the default as it is read after it was printed and parsed.
  abbrev pub HasDefault : ℕ → FieldKind k → Type 0
  HasDefault now none_field = Unit
  HasDefault now (boolean_field default) = Unit
  HasDefault now (integer_field default minimum maximum) =
      (i : ℤ) → default ≡ some i → IsBounded integer_cmp i minimum maximum
  HasDefault now (number_field default minimum maximum) =
      (x : k.Float) (n : k.Number)
      → default ≡ some x
      → k.reparse_f64 x ≡ some n
      → (y : k.Float) × (k.as_f64 n ≡ some y) × IsBounded k.float_cmp y minimum maximum
  HasDefault now (string_field default kind) =
      (t : ℕ) → default ≡ some t → HasLength (k.text_len t) kind
  HasDefault now (one_of_strings_field default choices) =
      (t : ℕ) → default ≡ some t → contains choices t ≡ true
  HasDefault now (date_time_field default) = default ≡ true → k.is_date_time now ≡ true
  HasDefault now ip_field = Unit
  HasDefault now uuid_field = Unit
  HasDefault now string_array_field = Unit
  HasDefault now (object_field children dynamic_object) = children ≡ []
  HasDefault now (object_field children static_object) = All (λ name. name ≢ []) children
  HasDefault now (object_field children (enumerate_object choices)) =
      All (λ name. name ≢ []) children
  HasDefault now (object_array_field children) = Unit

  -- The fields of a model, whose names have no more than some words
  abbrev pub IsModel : ℕ → ℕ → Fields k → Type 0
  IsModel now words spec =
      All (λ (f : Field k). HasDefault now f.kind × (length f.name ≤ words)) spec

  -- What a step of filling may rely on
  abbrev pub FillsBy : ℕ → Fields k → List ℕ → Step Loop → Type 0
  FillsBy words spec base done = Unit
  FillsBy words spec base (failed e) = e ≢ stack_overflow
  FillsBy words spec base (descend (over_children optional names)) =
      ((names ≡ []) ⊎ IsParent spec base) × All (λ name. name ≢ []) names × (length base ≤ words)
  FillsBy words spec base (descend (over_items optional n)) = n ≡ 0

names_eqb-true : (xs ys : List ℕ) → names_eqb xs ys ≡ true → xs ≡ ys
names_eqb-true [] [] h = refl
names_eqb-true [] (y ∷ ys) h = absurd (cc)
names_eqb-true (x ∷ xs) [] h = absurd (cc)
names_eqb-true (x ∷ xs) (y ∷ ys) h =
    let (first, rest) = both_true (eqb x y) (names_eqb xs ys) h in
    ap (λ z. z ∷ xs) ((eqb_iff x y).0 first) ∙ ap (λ zs. y ∷ zs) (names_eqb-true xs ys rest)

module _ {k : Codec} where
  found_here :
      (f g : Field k) (name : List ℕ) (o : Option (Field k))
      → (elim o [ some h ↦ some h | none ↦ if names_eqb f.name name then some f else none ])
        ≡ some g
      → (o ≡ some g) ⊎ ((f ≡ g) × (f.name ≡ name))
  found_here f g name (some h) e = inl e
  found_here f g name none e = elim (Bool-cases (names_eqb f.name name)) [
    | inl same ↦ inr (
      some-injective f g (sym (ap (λ b. if b then some f else none) same) ∙ e),
      names_eqb-true f.name name same,
    )
    | inr other ↦ absurd (cc)
  ]

  pub find_field-All :
      (P : Field k → Type 0) (name : List ℕ) (spec : Fields k) (g : Field k)
      → find_field name spec ≡ some g
      → All P spec
      → P g × (g.name ≡ name)
  unfolding find_field
  find_field-All P name [] g e all = absurd (cc)
  find_field-All P name (f ∷ spec) g e all = elim (found_here f g name (find_field name spec) e) [
    | inl later ↦ find_field-All P name spec g later all.1
    | inr here ↦ (subst P here.0 all.0, ap (λ (h : Field k). h.name) (sym here.0) ∙ here.1)
  ]

  -- At a field of a known kind
  module _ (laws : IsCodec k) (now words : ℕ) (spec : Fields k) (base : List ℕ) (field : Field k)
      (found : find_field base spec ≡ some field) (small : length base ≤ words) where
    default-Fills :
        (default : Option (Json k)) (optional : Bool) (old : Json k)
        → ((v : Json k) → default ≡ some v → Conforms true spec base v)
        → Conforms true spec base old
        → EndsBy true spec base (FillsBy words spec base) (fill_null default optional old)
    unfolding Conforms
    default-Fills (some v) optional null good h = (good v refl, tt)
    default-Fills none true null good h = (tt, tt)
    default-Fills none false null good h = (tt, λ e. cc)
    default-Fills default optional (boolean b) good h = (h, tt)
    default-Fills default optional (number n) good h = (h, tt)
    default-Fills default optional (string t) good h = (h, tt)
    default-Fills default optional (array xs) good h = (h, tt)
    default-Fills default optional (object es) good h = (h, tt)

    mapped-Fills :
        {T : Type 0} (f : T → Json k) (default : Option T) (optional : Bool) (old : Json k)
        → ((t : T) → default ≡ some t → Conforms true spec base (f t))
        → Conforms true spec base old
        → EndsBy true spec base
            (FillsBy words spec base)
            (fill_null (default_map f default) optional old)
    mapped-Fills f none optional old good h = default-Fills none optional old (λ v e. absurd (cc)) h
    mapped-Fills f (some t) optional old good h =
        default-Fills (some (f t)) optional old
          (λ v e. subst (λ w. Conforms true spec base w) (some-injective (f t) v e) (good t refl)) h

    parsed-Fills :
        (o : Option (k.Number)) (optional : Bool) (old : Json k)
        → ((n : k.Number) → o ≡ some n → Conforms true spec base (number n))
        → Conforms true spec base old
        → EndsBy true spec base (FillsBy words spec base) (fill_parsed o optional old)
    parsed-Fills (some n) optional old good h = mapped-Fills number (some n) optional old good h
    parsed-Fills none optional null good h = (h, λ e. cc)
    parsed-Fills none optional (boolean b) good h = (h, tt)
    parsed-Fills none optional (number n) good h = (h, tt)
    parsed-Fills none optional (string t) good h = (h, tt)
    parsed-Fills none optional (array xs) good h = (h, tt)
    parsed-Fills none optional (object es) good h = (h, tt)

    number-Fills :
        (default minimum maximum : Option (k.Float)) (optional : Bool) (old : Json k)
        → field.kind ≡ number_field default minimum maximum
        → HasDefault {k = k} now (number_field default minimum maximum)
        → Conforms true spec base old
        → EndsBy true spec base (FillsBy words spec base) (fill_number default optional old)
    number-Fills none minimum maximum optional old e good h =
        default-Fills none optional old (λ v e. absurd (cc)) h
    number-Fills (some x) minimum maximum optional old e good h =
        parsed-Fills (k.reparse_f64 x) optional old
          (λ n made.
            let (y, read, bounded) = good x n refl made in
            IsOf-Conforms true spec base field found (number_field (some x) minimum maximum)
              (number n) e (n, y, refl, read, bounded))
          h

    or_else-Fills :
        (default old : Json k)
        → Conforms true spec base default
        → Conforms true spec base old
        → Conforms true spec base (or_else default old)
    or_else-Fills default null good h = good
    or_else-Fills default (boolean b) good h = h
    or_else-Fills default (number n) good h = h
    or_else-Fills default (string t) good h = h
    or_else-Fills default (array xs) good h = h
    or_else-Fills default (object es) good h = h

    empty_map :
        (children : List (List ℕ)) (kind : ObjectKind)
        → field.kind ≡ object_field children kind
        → Conforms true spec base (object no_entries)
    unfolding Conforms AllConform
    empty_map children dynamic_object e = map_here true spec base field found Unit Unit _ e tt
    empty_map children static_object e = map_here true spec base field found Unit Unit _ e tt
    empty_map children (enumerate_object choices) e =
        map_here true spec base field found Unit Unit _ e tt

    children-Fills :
        (children : List (List ℕ)) (kind : ObjectKind) (optional : Bool)
        → field.kind ≡ object_field children kind
        → HasDefault {k = k} now (object_field children kind)
        → FillsBy words spec base (descend (over_children optional children))
    children-Fills children dynamic_object optional e good =
        (inl good, subst (λ names. All (λ name. name ≢ []) names) (sym good) tt, small)
    children-Fills children static_object optional e good =
        (inr (map_here true spec base field found ⊥ Unit _ e tt), good, small)
    children-Fills children (enumerate_object choices) optional e good =
        (inr (map_here true spec base field found ⊥ Unit _ e tt), good, small)

    no_items_left :
        (children : List (List ℕ)) (old : Json k)
        → field.kind ≡ object_array_field children
        → Conforms true spec base old
        → array_len (or_else (array no_items) old) ≡ 0
    unfolding Conforms
    no_items_left children null e h = refl
    no_items_left children (boolean b) e h = refl
    no_items_left children (number n) e h = refl
    no_items_left children (string t) e h = refl
    no_items_left children (object es) e h = refl
    no_items_left children (array xs) e h =
        let here : IsOf true (object_array_field children) (array xs) =
          subst (λ d. IsOf true d (array xs)) e (subst (λ o. IsLeaf true o (array xs)) found h) in
        ap array_len here.1

    pub fill_kind-Fills :
        (kd : FieldKind k) (optional : Bool) (old : Json k)
        → field.kind ≡ kd
        → HasDefault now kd
        → Conforms true spec base old
        → EndsBy true spec base (FillsBy words spec base) (fill_kind now true kd optional old)
    unfolding Conforms
    fill_kind-Fills none_field optional old e good h = (tt, tt)
    fill_kind-Fills (boolean_field default) optional old e good h =
        mapped-Fills boolean default optional old
          (λ b is. IsOf-Conforms true spec base field found _ (boolean b) e (b, refl)) h
    fill_kind-Fills (integer_field default minimum maximum) optional old e good h =
        mapped-Fills (λ i. number (k.from_i64 i)) default optional old
          (λ i is.
            IsOf-Conforms true spec base field found _ (number (k.from_i64 i)) e
              (k.from_i64 i, i, refl, laws.read_i64 i, good i is))
          h
    fill_kind-Fills (number_field default minimum maximum) optional old e good h =
        number-Fills default minimum maximum optional old e good h
    fill_kind-Fills (string_field default kind) optional old e good h =
        mapped-Fills string default optional old
          (λ t is. IsOf-Conforms true spec base field found _ (string t) e (t, refl, good t is)) h
    fill_kind-Fills (one_of_strings_field default choices) optional old e good h =
        mapped-Fills string default optional old
          (λ t is. IsOf-Conforms true spec base field found _ (string t) e (t, refl, good t is)) h
    fill_kind-Fills (date_time_field false) optional old e good h =
        default-Fills none optional old (λ v is. absurd (cc)) h
    fill_kind-Fills (date_time_field true) optional old e good h =
        mapped-Fills string (some now) optional old
          (λ t is.
            IsOf-Conforms true spec base field found _ (string t) e
              (t, refl, subst (λ u. k.is_date_time u ≡ true) (some-injective now t is) (good refl)))
          h
    fill_kind-Fills ip_field optional old e good h =
        default-Fills none optional old (λ v is. absurd (cc)) h
    fill_kind-Fills uuid_field optional old e good h =
        default-Fills none optional old (λ v is. absurd (cc)) h
    fill_kind-Fills string_array_field optional old e good h = (
      or_else-Fills (array no_items) old
          (IsOf-Conforms true spec base field found _ (array no_items) e (no_items, refl, tt)) h,
      tt,
    )
    fill_kind-Fills (object_field children kind) optional old e good h = (
      or_else-Fills (object no_entries) old (empty_map children kind e) h,
      children-Fills children kind optional e good,
    )
    fill_kind-Fills (object_array_field children) optional old e good h = (
      or_else-Fills (array no_items) old
          (IsOf-Conforms true spec base field found _ (array no_items) e (refl, refl)) h,
      no_items_left children old e h,
    )
