-- ===== src/Template/Typed/Updates.antt =====
-- The updates of an item keep the types of its template.
use open_ark.Prelude.{
  ℕ, suc, Bool, false, ◌||◌, Option, none, some, List, [], ◌∷◌, ◌++◌, ◌≡◌, ◌≢◌, refl,
}
use open_ark.Template.{
  Part, index, child, Codec, Json, null, boolean, number, string, array, object, Items, no_items,
  item, Entries, no_entries, entry, FieldKind, none_field, ip_field, uuid_field, string_array_field,
  boolean_field, integer_field, number_field, string_field, one_of_strings_field, date_time_field,
  object_field, object_array_field, Field, Fields, InputError, stack_overflow, no_root_field,
}
use open_ark.Template.Visit.{
  Step, done, failed, descend, find_field, Visited, from_root, visit_root, Updated, after_visit,
  and_next, sub_name,
}
use open_ark.Template.Item.{put, update_item, update_entries, update_items}
use open_ark.Template.Typed.{IsOf, IsLeaf, IsMapOf, IsMap, Conforms}
use open_ark.Template.Typed.Visits.{
  Ends, EndsBy, StepHas, IsParent, IsObjectPath, HasNoArray, target, visit-EndsBy,
  visit_index-EndsBy,
}
use open_ark.Template.Typed.Puts.{Goes, put_kind-Ends}

module _ {k : Codec} where
  -- An update ends in a panic, or in a template that conforms, without an error or with one that is
  -- not of the stack.
  abbrev pub Keeps : Bool → Fields k → Updated k → Type 0
  Keeps filled spec none = Unit
  Keeps filled spec (some (map, none)) = Conforms filled spec [] map
  Keeps filled spec (some (map, some e)) = Conforms filled spec [] map × (e ≢ stack_overflow)

  pub after_visit-Keeps :
      {D : Type 0} (filled : Bool) (spec : Fields k) (S : Step D → Type 0) (v : Visited k D)
      (loop : D → Json k → Updated k)
      → EndsBy filled spec [] S v
      → ((e : InputError) → S (failed e) → e ≢ stack_overflow)
      → ((d : D) (map : Json k)
          → S (descend d)
          → Conforms filled spec [] map
          → Keeps filled spec (loop d map))
      → Keeps filled spec (after_visit v loop)
  after_visit-Keeps filled spec S none loop h fine rest = tt
  after_visit-Keeps filled spec S (some (map, done)) loop h fine rest = h.0
  after_visit-Keeps filled spec S (some (map, failed e)) loop h fine rest = (h.0, fine e h.1)
  after_visit-Keeps filled spec S (some (map, descend d)) loop h fine rest = rest d map h.1 h.0

  pub and_next-Keeps :
      (filled : Bool) (spec : Fields k) (u : Updated k) (next : Json k → Updated k)
      → Keeps filled spec u
      → ((map : Json k) → Conforms filled spec [] map → Keeps filled spec (next map))
      → Keeps filled spec (and_next u next)
  and_next-Keeps filled spec none next h rest = tt
  and_next-Keeps filled spec (some (map, some e)) next h rest = h
  and_next-Keeps filled spec (some (map, none)) next h rest = rest map h

  root-EndsBy :
      {D : Type 0} (filled : Bool) (spec : Fields k) (S : Step D → Type 0) (o : Option (Field k))
      (map : Json k) (go : Field k → Json k → Visited k D)
      → ((e : InputError) → e ≢ stack_overflow → S (failed e))
      → Conforms filled spec [] map
      → ((root : Field k) → o ≡ some root → EndsBy filled spec [] S (go root map))
      → EndsBy filled spec [] S (from_root o map go)
  root-EndsBy filled spec S none map go fails h rest = (h, fails no_root_field (λ e. cc))
  root-EndsBy filled spec S (some root) map go fails h rest = rest root refl

  pub visit_root-EndsBy :
      {D : Type 0} (filled : Bool) (spec : Fields k) (act : Field k → Json k → Visited k D)
      (missing : Step D) (S : Step D → Type 0) (path : List Part) (map : Json k)
      → S missing
      → ((e : InputError) → e ≢ stack_overflow → S (failed e))
      → IsObjectPath spec [] path
      → Conforms filled spec [] map
      → ((here : Field k) (v : Json k)
          → find_field (target [] path) spec ≡ some here
          → Conforms filled spec (target [] path) v
          → EndsBy filled spec (target [] path) S (act here v))
      → EndsBy filled spec [] S (visit_root act missing spec path map)
  unfolding visit_root
  visit_root-EndsBy filled spec act missing S path map m fails way h acts =
      root-EndsBy filled spec S (find_field [] spec) map _ fails h
        (λ root e. visit-EndsBy filled spec act missing S [] root path map m fails way e h acts)

  -- What an update may rely on where it goes on
  put_at :
      (spec : Fields k) (path : List Part) (v : Json k) (optional : Bool) (map : Json k)
      → IsObjectPath spec [] path
      → Conforms false spec [] map
      → Ends false spec []
          (λ d. Goes spec (target [] path) v)
          (visit_root (put v optional) done spec path map)
  put_at spec path v optional map way h =
      visit_root-EndsBy false spec (put v optional) done _ path map tt (λ e ne. ne) way h
        (λ here old found conforms.
          put_kind-Ends false spec (target [] path) here found here.kind v
            (optional || here.optional) old refl conforms)

  -- The parts of a parent have no arrays
  parent_bare : (kd : FieldKind k) (xs : Items k) → IsMapOf kd ⊥ Unit → IsOf false kd (array xs) → ⊥
  parent_bare none_field xs h of = h
  parent_bare (boolean_field default) xs h of = h
  parent_bare (integer_field default minimum maximum) xs h of = h
  parent_bare (number_field default minimum maximum) xs h of = h
  parent_bare (string_field default kind) xs h of = h
  parent_bare (one_of_strings_field default choices) xs h of = h
  parent_bare (date_time_field default) xs h of = h
  parent_bare ip_field xs h of = h
  parent_bare uuid_field xs h of = h
  parent_bare string_array_field xs h of = h
  parent_bare (object_field children kind) xs h of = of
  parent_bare (object_array_field children) xs h of = h

  parent-HasNoArray :
      (o : Option (Field k)) (xs : Items k) → IsMap o ⊥ Unit → IsLeaf false o (array xs) → ⊥
  parent-HasNoArray none xs h of = h
  parent-HasNoArray (some field) xs h of = parent_bare field.kind xs h of

  index-Ends :
      (spec : Fields k) (path : List Part) (i : ℕ) (v : Json k) (optional : Bool) (map : Json k)
      → IsObjectPath spec [] path
      → HasNoArray spec (target [] path)
      → Conforms false spec [] map
      → Ends false spec []
          (λ d. ⊥)
          (visit_root (put v optional) done spec (path ++ index i ∷ []) map)
  unfolding visit_root
  index-Ends spec path i v optional map way bare h =
      root-EndsBy false spec (StepHas (λ d. ⊥)) (find_field [] spec) map _ (λ e ne. ne) h
        (λ root e.
          visit_index-EndsBy spec (put v optional) done (StepHas (λ d. ⊥)) [] root path i map tt
            (λ e ne. ne) way bare h)

  -- At an index, an update ends before its value is looked at.
  update_index-Keeps :
      (spec : Fields k) (path : List Part) (i : ℕ) (v : Json k) (optional : Bool) (map : Json k)
      → IsObjectPath spec [] path
      → HasNoArray spec (target [] path)
      → Conforms false spec [] map
      → Keeps false spec (update_item spec (path ++ index i ∷ []) v optional map)
  unfolding update_item
  update_index-Keeps spec path i (object es) optional map way bare h =
      after_visit-Keeps false spec (StepHas (λ d. ⊥)) _ _
        (index-Ends spec path i (object es) optional map way bare h) (λ e h. h)
        (λ d next never conforms. absurd never)
  update_index-Keeps spec path i (array xs) optional map way bare h =
      after_visit-Keeps false spec (StepHas (λ d. ⊥)) _ _
        (index-Ends spec path i (array xs) optional map way bare h) (λ e h. h)
        (λ d next never conforms. absurd never)
  update_index-Keeps spec path i null optional map way bare h =
      after_visit-Keeps false spec (StepHas (λ d. ⊥)) _ _
        (index-Ends spec path i null optional map way bare h) (λ e h. h)
        (λ d next never conforms. absurd never)
  update_index-Keeps spec path i (boolean b) optional map way bare h =
      after_visit-Keeps false spec (StepHas (λ d. ⊥)) _ _
        (index-Ends spec path i (boolean b) optional map way bare h) (λ e h. h)
        (λ d next never conforms. absurd never)
  update_index-Keeps spec path i (number n) optional map way bare h =
      after_visit-Keeps false spec (StepHas (λ d. ⊥)) _ _
        (index-Ends spec path i (number n) optional map way bare h) (λ e h. h)
        (λ d next never conforms. absurd never)
  update_index-Keeps spec path i (string t) optional map way bare h =
      after_visit-Keeps false spec (StepHas (λ d. ⊥)) _ _
        (index-Ends spec path i (string t) optional map way bare h) (λ e h. h)
        (λ d next never conforms. absurd never)

  pub child_path :
      (spec : Fields k) (base : List ℕ) (path : List Part) (c : ℕ)
      → IsObjectPath spec base path
      → IsParent spec (target base path)
      → IsObjectPath spec base (path ++ child c ∷ [])
  child_path spec base [] c way parent = (parent, tt)
  child_path spec base (index i ∷ path) c way parent = absurd way
  child_path spec base (child d ∷ path) c way parent =
      (way.0, child_path spec (base ++ d ∷ []) path c way.1 parent)

  update_part-Keeps :
      (spec : Fields k) (path : List Part) (part : Option Part) (v : Json k) (optional : Bool)
      (map : Json k)
      → IsObjectPath spec [] path
      → IsParent spec (target [] path)
      → Conforms false spec [] map
      → ((way : List Part)
          → IsObjectPath spec [] way
          → Keeps false spec (update_item spec way v optional map))
      → Keeps false spec (update_item spec (sub_name path part) v optional map)
  update_part-Keeps spec path none v optional map way parent h rest = rest path way
  update_part-Keeps spec path (some (child c)) v optional map way parent h rest =
      rest (path ++ child c ∷ []) (child_path spec [] path c way parent)
  update_part-Keeps spec path (some (index i)) v optional map way parent h rest =
      update_index-Keeps spec path i v optional map way
        (λ xs. parent-HasNoArray (find_field (target [] path) spec) xs parent) h

mutual
  unfolding update_item update_entries update_items

  pub update_item-Keeps :
      {k : Codec} (spec : Fields k) (path : List Part) (v : Json k) (optional : Bool) (map : Json k)
      → IsObjectPath spec [] path
      → Conforms false spec [] map
      → Keeps false spec (update_item spec path v optional map)
  update_item-Keeps spec path (object es) optional map way h =
      after_visit-Keeps false spec (StepHas (λ d. Goes spec (target [] path) (object es))) _ _
        (put_at spec path (object es) optional map way h) (λ e h. h)
        (λ d next parent conforms. update_entries-Keeps spec path es d next way parent conforms)
  update_item-Keeps spec path (array xs) optional map way h =
      after_visit-Keeps false spec (StepHas (λ d. Goes spec (target [] path) (array xs))) _ _
        (put_at spec path (array xs) optional map way h) (λ e h. h)
        (λ d next bare conforms. update_items-Keeps spec path 0 xs d next way bare conforms)
  update_item-Keeps spec path null optional map way h =
      after_visit-Keeps false spec (StepHas (λ d. Goes spec (target [] path) null)) _ _
        (put_at spec path null optional map way h) (λ e h. h) (λ d next u conforms. conforms)
  update_item-Keeps spec path (boolean b) optional map way h =
      after_visit-Keeps false spec (StepHas (λ d. Goes spec (target [] path) (boolean b))) _ _
        (put_at spec path (boolean b) optional map way h) (λ e h. h) (λ d next u conforms. conforms)
  update_item-Keeps spec path (number n) optional map way h =
      after_visit-Keeps false spec (StepHas (λ d. Goes spec (target [] path) (number n))) _ _
        (put_at spec path (number n) optional map way h) (λ e h. h) (λ d next u conforms. conforms)
  update_item-Keeps spec path (string t) optional map way h =
      after_visit-Keeps false spec (StepHas (λ d. Goes spec (target [] path) (string t))) _ _
        (put_at spec path (string t) optional map way h) (λ e h. h) (λ d next u conforms. conforms)

  update_entries-Keeps :
      {k : Codec} (spec : Fields k) (path : List Part) (es : Entries k) (optional : Bool)
      (map : Json k)
      → IsObjectPath spec [] path
      → IsParent spec (target [] path)
      → Conforms false spec [] map
      → Keeps false spec (update_entries spec path es optional map)
  update_entries-Keeps spec path no_entries optional map way parent h = h
  update_entries-Keeps {k} spec path (entry key v es) optional map way parent h =
      and_next-Keeps false spec _ _
        (update_part-Keeps spec path (k.snake_case key) v optional map way parent h
          (λ part w. update_item-Keeps spec part v optional map w h))
        (λ next conforms. update_entries-Keeps spec path es optional next way parent conforms)

  update_items-Keeps :
      {k : Codec} (spec : Fields k) (path : List Part) (i : ℕ) (xs : Items k) (optional : Bool)
      (map : Json k)
      → IsObjectPath spec [] path
      → HasNoArray spec (target [] path)
      → Conforms false spec [] map
      → Keeps false spec (update_items spec path i xs optional map)
  update_items-Keeps spec path i no_items optional map way bare h = h
  update_items-Keeps spec path i (item v xs) optional map way bare h =
      and_next-Keeps false spec _ _ (update_index-Keeps spec path i v optional map way bare h)
        (λ next conforms. update_items-Keeps spec path (suc i) xs optional next way bare conforms)
