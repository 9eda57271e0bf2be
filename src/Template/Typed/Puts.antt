-- ===== src/Template/Typed/Puts.antt =====
-- What is stored at a field has its type.
use open_ark.Prelude.{
  ℕ, Bool, true, false, Option, none, some, List, ◌≡◌, ◌&&◌, refl, sym, subst, and_then, contains,
  nat_eq, Result, ok, err,
}
use open_ark.Template.{
  Ordering, less, greater, Codec, Json, null, boolean, number, string, array, object, Entries,
  ObjectKind, dynamic_object, static_object, enumerate_object, FieldKind, none_field, ip_field,
  uuid_field, string_array_field, boolean_field, integer_field, number_field, string_field,
  one_of_strings_field, date_time_field, object_field, object_array_field, Field, Fields,
  InputError, not_a_choice, not_parsed, type_mismatch,
}
use open_ark.Template.Checks.{integer_cmp, assert_cmp, assert_bounds, assert_optional, is_null}
use open_ark.Template.Visit.{find_field}
use open_ark.Template.Item.{
  as_number, as_str, as_bool, only_strings, store, settle, store_view, put_strings, put_entries,
  put_object, put_items, put_kind,
}
use open_ark.Template.Typed.{IsBounded, HasLength, IsText, IsOf, IsLeaf, IsMapOf, IsMap, Conforms}
use open_ark.Template.Typed.Visits.{Ends, IsParent, HasNoArray}
use open_ark.Template.Typed.Tests.{
  >>-IsFine, IsFine, assert_bounds-IsBounded, assert_cmp-IsFine, assert_string-HasLength,
  assert_string-IsFine, if-IsFine, if_ok,
}
use open_ark.Template.Typed.Views.{
  as_bool-some, as_str-some, object-IsOf, only_strings-AllStrings, viewed_number,
}

module _ {k : Codec} where
  -- What the parts of a value that is gone on with may rely on
  abbrev pub Goes : Fields k → List ℕ → Json k → Type 0
  Goes spec base (object es) = IsParent spec base
  Goes spec base (array xs) = HasNoArray spec base
  Goes spec base null = Unit
  Goes spec base (boolean b) = Unit
  Goes spec base (number n) = Unit
  Goes spec base (string t) = Unit

  -- At a field of a known kind
  module _ (filled : Bool) (spec : Fields k) (base : List ℕ) (field : Field k)
      (found : find_field base spec ≡ some field) where
    leaf : (v : Json k) → IsOf filled field.kind v → IsLeaf filled (find_field base spec) v
    leaf v h = subst (λ o. IsLeaf filled o v) (sym found) h

    pub IsOf-Conforms :
        (kd : FieldKind k) (v : Json k)
        → field.kind ≡ kd
        → IsOf filled kd v
        → Conforms filled spec base v
    unfolding Conforms
    IsOf-Conforms kd null e h = tt
    IsOf-Conforms kd (boolean b) e h =
        leaf (boolean b) (subst (λ d. IsOf filled d (boolean b)) (sym e) h)
    IsOf-Conforms kd (number n) e h =
        leaf (number n) (subst (λ d. IsOf filled d (number n)) (sym e) h)
    IsOf-Conforms kd (string t) e h =
        leaf (string t) (subst (λ d. IsOf filled d (string t)) (sym e) h)
    IsOf-Conforms kd (array xs) e h =
        leaf (array xs) (subst (λ d. IsOf filled d (array xs)) (sym e) h)
    IsOf-Conforms kd (object es) e h = absurd (object-IsOf filled kd es h)

    store-Ends :
        (P : Bool → Type 0) (v old : Json k) (r : Result InputError (Unit {0}))
        → Conforms filled spec base old
        → IsFine r
        → ((u : Unit {0}) → r ≡ ok u → Conforms filled spec base v)
        → Ends filled spec base P (store v r old)
    store-Ends P v old (ok u) h fine good = (good u refl, tt)
    store-Ends P v old (err e) h fine good = (h, fine)

    settle-Ends :
        (P : Bool → Type 0) (old : Json k) (r : Result InputError (Unit {0}))
        → IsFine r
        → Conforms filled spec base old
        → Ends filled spec base P (settle r old)
    settle-Ends P old (ok u) fine h = (h, tt)
    settle-Ends P old (err e) fine h = (h, fine)

    optional-Ends :
        (P : Bool → Type 0) (v : Json k) (optional : Bool) (old : Json k)
        → Conforms filled spec base old
        → Ends filled spec base P (settle (assert_optional v optional) old)
    optional-Ends P v optional old h =
        settle-Ends P old (assert_optional v optional)
          (if-IsFine (optional && is_null v) type_mismatch (λ e. cc)) h

    store_view-Ends :
        {T : Type 0} (P : Bool → Type 0) (o : Option T) (check : T → Result InputError (Unit {0}))
        (v : Json k) (optional : Bool) (old : Json k)
        → Conforms filled spec base old
        → ((t : T) → IsFine (check t))
        → ((t : T) (u : Unit {0}) → o ≡ some t → check t ≡ ok u → Conforms filled spec base v)
        → Ends filled spec base P (store_view o check v optional old)
    store_view-Ends P none check v optional old h fails good = optional-Ends P v optional old h
    store_view-Ends P (some t) check v optional old h fails good =
        store-Ends P v old (check t) h (fails t) (λ u fine. good t u refl fine)

    -- A field of a text
    text-Ends :
        (kd : FieldKind k) (Q : ℕ → Type 0) (check : ℕ → Result InputError (Unit {0})) (v : Json k)
        (optional : Bool) (old : Json k)
        → field.kind ≡ kd
        → Conforms filled spec base old
        → ((t : ℕ) → IsFine (check t))
        → ((t : ℕ) → IsText {k = k} Q (string t) → IsOf filled kd (string t))
        → ((t : ℕ) (u : Unit {0}) → check t ≡ ok u → Q t)
        → Ends filled spec base (λ d. Goes spec base v) (store_view (as_str v) check v optional old)
    text-Ends kd Q check v optional old e h fails of good =
        store_view-Ends (λ d. Goes spec base v) (as_str v) check v optional old h fails
          (λ t u seen fine.
            subst (λ w. Conforms filled spec base w) (sym (as_str-some v t seen))
              (IsOf-Conforms kd (string t) e (of t (t, refl, good t u fine))))

    numbered-Ends :
        {T : Type 0} (kd : FieldKind k) (f : k.Number → Option T) (cmp : T → T → Option Ordering)
        (minimum maximum : Option T) (v : Json k) (optional : Bool) (old : Json k)
        → field.kind ≡ kd
        → Conforms filled spec base old
        → ((n : k.Number) (x : T)
            → f n ≡ some x
            → IsBounded cmp x minimum maximum
            → IsOf filled kd (number n))
        → Ends filled spec base
            (λ d. Goes spec base v)
            (store_view
              (and_then (as_number v) f)
              (λ x. assert_bounds cmp x minimum maximum)
              v
              optional
              old)
    numbered-Ends kd f cmp minimum maximum v optional old e h of =
        store_view-Ends (λ d. Goes spec base v) (and_then (as_number v) f) _ v optional old h
          (λ x.
            >>-IsFine (assert_cmp cmp x minimum greater) (assert_cmp cmp x maximum less)
              (assert_cmp-IsFine cmp x minimum greater) (assert_cmp-IsFine cmp x maximum less))
          (λ x u seen fine.
            let (n, same, read) = viewed_number v f x seen in
            subst (λ w. Conforms filled spec base w) (sym same)
              (IsOf-Conforms kd (number n) e
                (of n x read (assert_bounds-IsBounded cmp x minimum maximum u fine))))

    strings-Ends :
        (v : Json k) (optional : Bool) (old : Json k)
        → field.kind ≡ string_array_field
        → Conforms filled spec base old
        → Ends filled spec base (λ d. Goes spec base v) (put_strings v optional old)
    strings-Ends (array xs) optional old e h = (
      IsOf-Conforms string_array_field (array (only_strings xs)) e
          (only_strings xs, refl, only_strings-AllStrings xs),
      tt,
    )
    strings-Ends null optional old e h = optional-Ends _ null optional old h
    strings-Ends (boolean b) optional old e h = optional-Ends _ (boolean b) optional old h
    strings-Ends (number n) optional old e h = optional-Ends _ (number n) optional old h
    strings-Ends (string t) optional old e h = optional-Ends _ (string t) optional old h
    strings-Ends (object es) optional old e h = optional-Ends _ (object es) optional old h

    pub map_here :
        (D X : Type 0) (kd : FieldKind k)
        → field.kind ≡ kd
        → IsMapOf kd D X
        → IsMap (find_field base spec) D X
    map_here D X kd e h =
        subst (λ o. IsMap o D X) (sym found) (subst (λ d. IsMapOf d D X) (sym e) h)

    entries-Ends :
        (children : List (List ℕ)) (kind : ObjectKind) (es : Entries k) (optional : Bool)
        (old : Json k)
        → field.kind ≡ object_field children kind
        → Conforms filled spec base old
        → Ends filled spec base (λ d. Goes spec base (object es)) (put_entries kind es optional old)
    unfolding Conforms
    entries-Ends children dynamic_object es optional old e h = (map_here Unit _ _ e tt, tt)
    entries-Ends children static_object es optional old e h = (h, map_here ⊥ Unit _ e tt)
    entries-Ends children (enumerate_object choices) es optional old e h =
        (h, map_here ⊥ Unit _ e tt)

    object-Ends :
        (children : List (List ℕ)) (kind : ObjectKind) (v : Json k) (optional : Bool) (old : Json k)
        → field.kind ≡ object_field children kind
        → Conforms filled spec base old
        → Ends filled spec base (λ d. Goes spec base v) (put_object kind v optional old)
    object-Ends children kind (object es) optional old e h =
        entries-Ends children kind es optional old e h
    object-Ends children kind null optional old e h = optional-Ends _ null optional old h
    object-Ends children kind (boolean b) optional old e h =
        optional-Ends _ (boolean b) optional old h
    object-Ends children kind (number n) optional old e h =
        optional-Ends _ (number n) optional old h
    object-Ends children kind (string t) optional old e h =
        optional-Ends _ (string t) optional old h
    object-Ends children kind (array xs) optional old e h =
        optional-Ends _ (array xs) optional old h

    not_filled :
        (children : List (List ℕ)) → field.kind ≡ object_array_field children → HasNoArray spec base
    not_filled children e xs h =
        let here : IsOf false (object_array_field children) (array xs) =
          subst (λ d. IsOf false d (array xs)) e (subst (λ o. IsLeaf false o (array xs)) found h) in
        absurd (cc)

    items-Ends :
        (children : List (List ℕ)) (v : Json k) (optional : Bool) (old : Json k)
        → field.kind ≡ object_array_field children
        → Conforms filled spec base old
        → Ends filled spec base (λ d. Goes spec base v) (put_items v optional old)
    items-Ends children (array xs) optional old e h = (h, not_filled children e)
    items-Ends children null optional old e h = optional-Ends _ null optional old h
    items-Ends children (boolean b) optional old e h = optional-Ends _ (boolean b) optional old h
    items-Ends children (number n) optional old e h = optional-Ends _ (number n) optional old h
    items-Ends children (string t) optional old e h = optional-Ends _ (string t) optional old h
    items-Ends children (object es) optional old e h = optional-Ends _ (object es) optional old h

    pub put_kind-Ends :
        (kd : FieldKind k) (v : Json k) (optional : Bool) (old : Json k)
        → field.kind ≡ kd
        → Conforms filled spec base old
        → Ends filled spec base (λ d. Goes spec base v) (put_kind kd v optional old)
    unfolding Conforms
    put_kind-Ends none_field v optional old e h = (tt, tt)
    put_kind-Ends (boolean_field default) v optional old e h =
        store_view-Ends (λ d. Goes spec base v) (as_bool v) (λ b. ok tt) v optional old h (λ b. tt)
          (λ b u seen fine.
            subst (λ w. Conforms filled spec base w) (sym (as_bool-some v b seen))
              (IsOf-Conforms (boolean_field default) (boolean b) e (b, refl)))
    put_kind-Ends (integer_field default minimum maximum) v optional old e h =
        numbered-Ends _ k.as_i64 integer_cmp minimum maximum v optional old e h
          (λ n i read bounded. (n, i, refl, read, bounded))
    put_kind-Ends (number_field default minimum maximum) v optional old e h =
        numbered-Ends _ k.as_f64 k.float_cmp minimum maximum v optional old e h
          (λ n x read bounded. (n, x, refl, read, bounded))
    put_kind-Ends (string_field default kind) v optional old e h =
        text-Ends _ (λ t. HasLength (k.text_len t) kind) _ v optional old e h
          (λ t. assert_string-IsFine k t kind) (λ t of. of)
          (λ t u fine. assert_string-HasLength k t kind u fine)
    put_kind-Ends (one_of_strings_field default choices) v optional old e h =
        text-Ends _ (λ t. contains choices t ≡ true) _ v optional old e h
          (λ t. if-IsFine (contains choices t) not_a_choice (λ e. cc)) (λ t of. of)
          (λ t u fine. if_ok (contains choices t) _ u fine)
    put_kind-Ends (date_time_field default) v optional old e h =
        text-Ends _ (λ t. k.is_date_time t ≡ true) _ v optional old e h
          (λ t. if-IsFine (k.is_date_time t) not_parsed (λ e. cc)) (λ t of. of)
          (λ t u fine. if_ok (k.is_date_time t) _ u fine)
    put_kind-Ends ip_field v optional old e h =
        text-Ends _ (λ t. k.is_ip t ≡ true) _ v optional old e h
          (λ t. if-IsFine (k.is_ip t) not_parsed (λ e. cc)) (λ t of. of)
          (λ t u fine. if_ok (k.is_ip t) _ u fine)
    put_kind-Ends uuid_field v optional old e h =
        text-Ends _ (λ t. k.is_uuid t ≡ true) _ v optional old e h
          (λ t. if-IsFine (k.is_uuid t) not_parsed (λ e. cc)) (λ t of. of)
          (λ t u fine. if_ok (k.is_uuid t) _ u fine)
    put_kind-Ends string_array_field v optional old e h = strings-Ends v optional old e h
    put_kind-Ends (object_field children kind) v optional old e h =
        object-Ends children kind v optional old e h
    put_kind-Ends (object_array_field children) v optional old e h =
        items-Ends children v optional old e h
