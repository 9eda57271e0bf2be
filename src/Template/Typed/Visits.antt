-- ===== src/Template/Typed/Visits.antt =====
-- A visit keeps the types of a template, if what is done at its end does.
use open_ark.Prelude.{
  ℕ, Bool, false, Option, none, some, List, [], ◌∷◌, ◌++◌, ◌≡◌, ◌≢◌, refl, sym, subst, eqb, eqb_iff,
  if_rule, unwrap_or,
}
use open_ark.Template.{
  Part, index, child, Codec, Json, null, boolean, number, string, array, object, Items, Entries,
  no_entries, entry, dynamic_object, static_object, enumerate_object, FieldKind, none_field,
  ip_field, uuid_field, string_array_field, boolean_field, integer_field, number_field,
  string_field, one_of_strings_field, date_time_field, object_field, object_array_field, Field,
  Fields, InputError, stack_overflow, cannot_access, no_array_field,
}
use open_ark.Template.Visit.{
  Step, done, failed, descend, find_field, find_entry, set_entry, Visited, in_object, enter_object,
  enter_array, visit,
}
use open_ark.Template.Typed.{IsLeaf, IsMapOf, IsMap, Conforms, AllConform}

-- What a step that goes on may rely on
abbrev pub StepHas : {D : Type 0} → (D → Type 0) → Step D → Type 0
StepHas P done = Unit
StepHas P (failed e) = e ≢ stack_overflow
StepHas P (descend d) = P d

abbrev pub target : List ℕ → List Part → List ℕ
target base [] = base
target base (index i ∷ path) = target base path
target base (child c ∷ path) = target (base ++ c ∷ []) path

module _ {k : Codec} where
  -- A visit ends in a panic, or in a value that conforms, with a step as it is described.
  abbrev pub EndsBy :
      {D : Type 0} → Bool → Fields k → List ℕ → (Step D → Type 0) → Visited k D → Type 0
  EndsBy filled spec base S none = Unit
  EndsBy filled spec base S (some (v, step)) = Conforms filled spec base v × S step

  abbrev pub Ends : {D : Type 0} → Bool → Fields k → List ℕ → (D → Type 0) → Visited k D → Type 0
  Ends filled spec base P v = EndsBy filled spec base (StepHas P) v

  -- The field is an object whose parts have fields.
  abbrev pub IsParent : Fields k → List ℕ → Type 0
  IsParent spec base = IsMap (find_field base spec) ⊥ Unit

  -- The fields that a name leads through are such objects.
  abbrev pub IsObjectPath : Fields k → List ℕ → List Part → Type 0
  IsObjectPath spec base [] = Unit
  IsObjectPath spec base (index i ∷ path) = ⊥
  IsObjectPath spec base (child c ∷ path) =
      IsParent spec base × IsObjectPath spec (base ++ c ∷ []) path

  map_of_kind : (kd : FieldKind k) (X : Type 0) → IsMapOf kd ⊥ Unit → X → IsMapOf kd Unit X
  map_of_kind none_field X h x = absurd h
  map_of_kind (boolean_field default) X h x = absurd h
  map_of_kind (integer_field default minimum maximum) X h x = absurd h
  map_of_kind (number_field default minimum maximum) X h x = absurd h
  map_of_kind (string_field default kind) X h x = absurd h
  map_of_kind (one_of_strings_field default choices) X h x = absurd h
  map_of_kind (date_time_field default) X h x = absurd h
  map_of_kind ip_field X h x = absurd h
  map_of_kind uuid_field X h x = absurd h
  map_of_kind string_array_field X h x = absurd h
  map_of_kind (object_field children dynamic_object) X h x = absurd h
  map_of_kind (object_field children static_object) X h x = x
  map_of_kind (object_field children (enumerate_object choices)) X h x = x
  map_of_kind (object_array_field children) X h x = absurd h

  parts_of_kind : (kd : FieldKind k) (X : Type 0) → IsMapOf kd ⊥ Unit → IsMapOf kd Unit X → X
  parts_of_kind none_field X h x = absurd h
  parts_of_kind (boolean_field default) X h x = absurd h
  parts_of_kind (integer_field default minimum maximum) X h x = absurd h
  parts_of_kind (number_field default minimum maximum) X h x = absurd h
  parts_of_kind (string_field default kind) X h x = absurd h
  parts_of_kind (one_of_strings_field default choices) X h x = absurd h
  parts_of_kind (date_time_field default) X h x = absurd h
  parts_of_kind ip_field X h x = absurd h
  parts_of_kind uuid_field X h x = absurd h
  parts_of_kind string_array_field X h x = absurd h
  parts_of_kind (object_field children dynamic_object) X h x = absurd h
  parts_of_kind (object_field children static_object) X h x = x
  parts_of_kind (object_field children (enumerate_object choices)) X h x = x
  parts_of_kind (object_array_field children) X h x = absurd h

  map_of : (o : Option (Field k)) (X : Type 0) → IsMap o ⊥ Unit → X → IsMap o Unit X
  map_of none X h x = absurd h
  map_of (some field) X h x = map_of_kind field.kind X h x

  pub parts_of : (o : Option (Field k)) (X : Type 0) → IsMap o ⊥ Unit → IsMap o Unit X → X
  parts_of none X h x = absurd h
  parts_of (some field) X h x = parts_of_kind field.kind X h x

  set_entry-AllConform :
      (filled : Bool) (spec : Fields k) (base : List ℕ) (c : ℕ) (v : Json k) (es : Entries k)
      → Conforms filled spec (base ++ c ∷ []) v
      → AllConform filled spec base es
      → AllConform filled spec base (set_entry c v es)
  unfolding set_entry AllConform
  set_entry-AllConform filled spec base c v no_entries h all = (h, tt)
  set_entry-AllConform filled spec base c v (entry d w es) h all =
      if_rule (λ es'. AllConform filled spec base es') (eqb d c)
        (λ same. (
          subst (λ e. Conforms filled spec (base ++ e ∷ []) v) (sym ((eqb_iff d c).0 same)) h,
          all.1,
        ))
        (λ other. (all.0, set_entry-AllConform filled spec base c v es h all.1))

  pub found-Conforms :
      (filled : Bool) (spec : Fields k) (base : List ℕ) (c : ℕ) (es : Entries k)
      → AllConform filled spec base es
      → Conforms filled spec (base ++ c ∷ []) (unwrap_or (find_entry c es) null)
  unfolding find_entry AllConform Conforms
  found-Conforms filled spec base c no_entries all = tt
  found-Conforms filled spec base c (entry d v es) all =
      if_rule (λ o. Conforms filled spec (base ++ c ∷ []) (unwrap_or o null)) (eqb d c)
        (λ same. subst (λ e. Conforms filled spec (base ++ e ∷ []) v) ((eqb_iff d c).0 same) all.0)
        (λ other. found-Conforms filled spec base c es all.1)

  -- A part of an object is replaced.
  object_ends :
      {D : Type 0} (filled : Bool) (spec : Fields k) (base : List ℕ) (S : Step D → Type 0) (c : ℕ)
      (es : Entries k) (r : Visited k D)
      → IsParent spec base
      → AllConform filled spec base es
      → EndsBy filled spec (base ++ c ∷ []) S r
      → EndsBy filled spec base S (in_object c es r)
  unfolding Conforms
  object_ends filled spec base S c es none parent all h = tt
  object_ends filled spec base S c es (some (v, step)) parent all h = (
    map_of (find_field base spec) _ parent (set_entry-AllConform filled spec base c v es h.0 all),
    h.1,
  )

  enter_object-EndsBy :
      {D : Type 0} (filled : Bool) (spec : Fields k) (base : List ℕ) (S : Step D → Type 0)
      (missing : Step D) (c : ℕ) (o : Option (Field k)) (json : Json k)
      (go : Field k → Json k → Visited k D)
      → S missing
      → ((e : InputError) → e ≢ stack_overflow → S (failed e))
      → IsParent spec base
      → Conforms filled spec base json
      → ((here : Field k) (v : Json k)
          → o ≡ some here
          → Conforms filled spec (base ++ c ∷ []) v
          → EndsBy filled spec (base ++ c ∷ []) S (go here v))
      → EndsBy filled spec base S (enter_object missing o c json go)
  unfolding Conforms AllConform
  enter_object-EndsBy filled spec base S missing c none json go m fails parent h rest = (h, m)
  enter_object-EndsBy filled spec base S missing c (some here) null go m fails parent h rest =
      object_ends filled spec base S c no_entries (go here null) parent tt (rest here null refl tt)
  enter_object-EndsBy filled spec base S missing c (some here) (object es) go m fails parent h
        rest =
      let all = parts_of (find_field base spec) _ parent h in
      object_ends filled spec base S c es (go here (unwrap_or (find_entry c es) null)) parent all (
        rest here (unwrap_or (find_entry c es) null) refl
          (found-Conforms filled spec base c es all))
  enter_object-EndsBy filled spec base S missing c (some here) (boolean b) go m fails parent h
        rest =
      (h, fails cannot_access (λ e. cc))
  enter_object-EndsBy filled spec base S missing c (some here) (number n) go m fails parent h rest =
      (h, fails cannot_access (λ e. cc))
  enter_object-EndsBy filled spec base S missing c (some here) (string t) go m fails parent h rest =
      (h, fails cannot_access (λ e. cc))
  enter_object-EndsBy filled spec base S missing c (some here) (array xs) go m fails parent h rest =
      (h, fails cannot_access (λ e. cc))

  -- A visit by a name of words, by what is done at its end
  pub visit-EndsBy :
      {D : Type 0} (filled : Bool) (spec : Fields k) (act : Field k → Json k → Visited k D)
      (missing : Step D) (S : Step D → Type 0) (base : List ℕ) (field : Field k) (path : List Part)
      (json : Json k)
      → S missing
      → ((e : InputError) → e ≢ stack_overflow → S (failed e))
      → IsObjectPath spec base path
      → find_field base spec ≡ some field
      → Conforms filled spec base json
      → ((here : Field k) (v : Json k)
          → find_field (target base path) spec ≡ some here
          → Conforms filled spec (target base path) v
          → EndsBy filled spec (target base path) S (act here v))
      → EndsBy filled spec base S (visit act missing spec base field path json)
  unfolding visit
  visit-EndsBy filled spec act missing S base field [] json m fails way e h acts =
      acts field json e h
  visit-EndsBy filled spec act missing S base field (index i ∷ path) json m fails way e h acts =
      absurd way
  visit-EndsBy filled spec act missing S base field (child c ∷ path) json m fails way e h acts =
      enter_object-EndsBy filled spec base S missing c (find_field (base ++ c ∷ []) spec) json _ m
        fails way.0 h
        (λ here v found conforms.
          visit-EndsBy filled spec act missing S (base ++ c ∷ []) here path v m fails way.1 found
            conforms acts)

  -- The field has no array for its value, before the defaults are filled in.
  abbrev pub HasNoArray : Fields k → List ℕ → Type 0
  HasNoArray spec base = (xs : Items k) → IsLeaf false (find_field base spec) (array xs) → ⊥

  enter_array-EndsBy :
      {D : Type 0} (spec : Fields k) (base : List ℕ) (S : Step D → Type 0) (i : ℕ)
      (o : Option (Field k)) (json : Json k) (go : Field k → Json k → Visited k D)
      → HasNoArray spec base
      → ((e : InputError) → e ≢ stack_overflow → S (failed e))
      → Conforms false spec base json
      → EndsBy false spec base S (enter_array o i json go)
  unfolding Conforms
  enter_array-EndsBy spec base S i none json go bare fails h = (h, fails no_array_field (λ e. cc))
  enter_array-EndsBy spec base S i (some here) null go bare fails h = tt
  enter_array-EndsBy spec base S i (some here) (array xs) go bare fails h = absurd (bare xs h)
  enter_array-EndsBy spec base S i (some here) (boolean b) go bare fails h =
      (h, fails cannot_access (λ e. cc))
  enter_array-EndsBy spec base S i (some here) (number n) go bare fails h =
      (h, fails cannot_access (λ e. cc))
  enter_array-EndsBy spec base S i (some here) (string t) go bare fails h =
      (h, fails cannot_access (λ e. cc))
  enter_array-EndsBy spec base S i (some here) (object es) go bare fails h =
      (h, fails cannot_access (λ e. cc))

  -- A visit by a name of words and an index never gets to its end.
  pub visit_index-EndsBy :
      {D : Type 0} (spec : Fields k) (act : Field k → Json k → Visited k D) (missing : Step D)
      (S : Step D → Type 0) (base : List ℕ) (field : Field k) (path : List Part) (i : ℕ)
      (json : Json k)
      → S missing
      → ((e : InputError) → e ≢ stack_overflow → S (failed e))
      → IsObjectPath spec base path
      → HasNoArray spec (target base path)
      → Conforms false spec base json
      → EndsBy false spec base S (visit act missing spec base field (path ++ index i ∷ []) json)
  unfolding visit
  visit_index-EndsBy spec act missing S base field [] i json m fails way bare h =
      enter_array-EndsBy spec base S i (find_field base spec) json _ bare fails h
  visit_index-EndsBy spec act missing S base field (index j ∷ path) i json m fails way bare h =
      absurd way
  visit_index-EndsBy spec act missing S base field (child c ∷ path) i json m fails way bare h =
      enter_object-EndsBy false spec base S missing c (find_field (base ++ c ∷ []) spec) json _ m
        fails way.0 h
        (λ here v found conforms.
          visit_index-EndsBy spec act missing S (base ++ c ∷ []) here path i v m fails way.1 bare
            conforms)
