-- ===== src/Template/Visit.antt =====
-- The way to a field, `try_get_field` of crates/dash/provider/src/input.rs: the fields of the template
-- that lead there are made, and what is done at the field is done in place.
use open_ark.Prelude.{
  ℕ, zero, suc, Bool, true, false, ◌&&◌, Option, none, some, List, [], ◌∷◌, ◌++◌, if◌then◌else◌,
  eqb, unwrap_or,
}
use open_ark.Template.{
  Part, index, child, Codec, Json, null, boolean, number, string, array, object, Items, no_items,
  item, Entries, no_entries, entry, Field, Fields, InputError, no_root_field, no_array_field,
  cannot_access,
}

-- What is left to do once a field is visited: nothing, or to go on with its parts as it is told.
pub data Step (D : Type 0) : Type 0 where
  done : Step D
  failed : InputError → Step D
  descend : D → Step D

-- The names of fields, without the indices
abbrev pub names_eqb : List ℕ → List ℕ → Bool
names_eqb [] [] = true
names_eqb [] (y ∷ ys) = false
names_eqb (x ∷ xs) [] = false
names_eqb (x ∷ xs) (y ∷ ys) = eqb x y && names_eqb xs ys

module _ {k : Codec} where
  -- `BTreeMap::get` of the fields that `ItemTemplate::new_empty` collects, the last of a name in force
  unfoldable pub find_field : List ℕ → Fields k → Option (Field k)
  find_field name [] = none
  find_field name (f ∷ fields) =
      let later = find_field name fields in
      elim later [ some g ↦ some g | none ↦ if names_eqb f.name name then some f else none ]

  abbrev pub items_len : Items k → ℕ
  items_len no_items = 0
  items_len (item x xs) = suc (items_len xs)

  -- `Vec::resize`, to no less than its length
  abbrev pub resize : ℕ → Items k → Items k
  resize zero xs = xs
  resize (suc n) no_items = item null (resize n no_items)
  resize (suc n) (item x xs) = item x (resize n xs)

  abbrev pub get_item : ℕ → Items k → Option (Json k)
  get_item i no_items = none
  get_item zero (item x xs) = some x
  get_item (suc i) (item x xs) = get_item i xs

  abbrev pub set_item : ℕ → Json k → Items k → Items k
  set_item i v no_items = no_items
  set_item zero v (item x xs) = item v xs
  set_item (suc i) v (item x xs) = item x (set_item i v xs)

  -- `Map::get`, and `Map::insert`
  unfoldable pub find_entry : ℕ → Entries k → Option (Json k)
  find_entry c no_entries = none
  find_entry c (entry d v es) = let later = find_entry c es in if eqb d c then some v else later

  unfoldable pub set_entry : ℕ → Json k → Entries k → Entries k
  set_entry c v no_entries = entry c v no_entries
  set_entry c v (entry d w es) =
      let later = set_entry c v es in if eqb d c then entry d v es else entry d w later

-- The template after a visit, and what is left to do; none is a panic.
abbrev pub Visited : Codec → Type 0 → Type 0
Visited k D = Option (Json k × Step D)

module _ {k : Codec} {D : Type 0} where
  abbrev pub in_object : ℕ → Entries k → Visited k D → Visited k D
  in_object c es none = none
  in_object c es (some (v, step)) = some (object (set_entry c v es), step)

  abbrev pub in_array : ℕ → Items k → Visited k D → Visited k D
  in_array i xs none = none
  in_array i xs (some (v, step)) = some (array (set_item i v xs), step)

  -- The arm of `CursorEntry::EnterArray`. To index an array that has just been made with as many items
  -- as the index is a panic.
  abbrev pub enter_array :
      Option (Field k) → ℕ → Json k → (Field k → Json k → Visited k D) → Visited k D
  enter_array none i json go = some (json, failed no_array_field)
  enter_array (some here) i null go = none
  enter_array (some here) i (array xs) go =
      in_array i (resize (suc i) xs) (go here (unwrap_or (get_item i (resize (suc i) xs)) null))
  enter_array (some here) i (boolean b) go = some (boolean b, failed cannot_access)
  enter_array (some here) i (number n) go = some (number n, failed cannot_access)
  enter_array (some here) i (string t) go = some (string t, failed cannot_access)
  enter_array (some here) i (object es) go = some (object es, failed cannot_access)

  -- The arm of `CursorEntry::EnterObject`, where a child has no field by the step that is given
  abbrev pub enter_object :
      Step D → Option (Field k) → ℕ → Json k → (Field k → Json k → Visited k D) → Visited k D
  enter_object missing none c json go = some (json, missing)
  enter_object missing (some here) c null go = in_object c no_entries (go here null)
  enter_object missing (some here) c (object es) go =
      in_object c es (go here (unwrap_or (find_entry c es) null))
  enter_object missing (some here) c (boolean b) go = some (boolean b, failed cannot_access)
  enter_object missing (some here) c (number n) go = some (number n, failed cannot_access)
  enter_object missing (some here) c (string t) go = some (string t, failed cannot_access)
  enter_object missing (some here) c (array xs) go = some (array xs, failed cannot_access)

  -- `try_get_field` from a field on, with what is done at the end
  unfoldable pub visit :
      (Field k → Json k → Visited k D)
      → Step D
      → Fields k
      → List ℕ
      → Field k
      → List Part
      → Json k
      → Visited k D
  visit act missing spec base field [] json = act field json
  visit act missing spec base field (index i ∷ path) json =
      enter_array (find_field base spec) i json (λ here v. visit act missing spec base here path v)
  visit act missing spec base field (child c ∷ path) json =
      enter_object missing (find_field (base ++ c ∷ []) spec) c json
        (λ here v. visit act missing spec (base ++ c ∷ []) here path v)

  -- A visit from the root of a template
  abbrev pub from_root : Option (Field k) → Json k → (Field k → Json k → Visited k D) → Visited k D
  from_root none json go = some (json, failed no_root_field)
  from_root (some root) json go = go root json

  unfoldable pub visit_root :
      (Field k → Json k → Visited k D) → Step D → Fields k → List Part → Json k → Visited k D
  visit_root act missing spec path json =
      from_root (find_field [] spec) json (λ root v. visit act missing spec [] root path v)

-- The template after an update, and the error if there is one; none is a panic.
abbrev pub Updated : Codec → Type 0
Updated k = Option (Json k × Option InputError)

module _ {k : Codec} where
  -- What comes after a visit, with the loop over the parts where there is one
  abbrev pub after_visit : {D : Type 0} → Visited k D → (D → Json k → Updated k) → Updated k
  after_visit none loop = none
  after_visit (some (map, done)) loop = some (map, none)
  after_visit (some (map, failed e)) loop = some (map, some e)
  after_visit (some (map, descend d)) loop = loop d map

  -- The next round of a loop that has not failed
  abbrev pub and_next : Updated k → (Json k → Updated k) → Updated k
  and_next none next = none
  and_next (some (map, some e)) next = some (map, some e)
  and_next (some (map, none)) next = next map

-- `InputField::sub_object` and `InputField::sub_array`
abbrev pub sub_name : List Part → Option Part → List Part
sub_name path none = path
sub_name path (some part) = path ++ part ∷ []
