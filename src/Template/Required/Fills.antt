-- ===== src/Template/Required/Fills.antt =====
-- An item that is converted has every field that its model requires.
use open_ark.Prelude.{
  ℕ, zero, suc, ◌≤◌, Bool, true, false, ◌||◌, none, some, List, [], ◌∷◌, ◌++◌, append-nil, length,
  ◌≡◌, ◌≢◌, inl, inr, refl, sym, ap, subst, ◌∙◌, All, ok, ok-injective,
}
use mathlib.Core.Option.{some-injective}
use open_ark.Template.{Part, index, child, Codec, IsCodec, Json, null, Field, Fields, no_such_field}
use open_ark.Template.Visit.{
  failed, descend, find_field, Visited, visit_root, Updated, and_next, sub_name,
}
use open_ark.Template.Item.{update_item}
use open_ark.Template.Fill.{
  fill_kind, Loop, over_children, child_part, fill, each, run_loop, fill_default_value, outcome,
  convert_model_item,
}
use open_ark.Template.Typed.{Conforms}
use open_ark.Template.Typed.Visits.{EndsBy, IsParent, IsObjectPath, target}
use open_ark.Template.Typed.Updates.{Keeps, visit_root-EndsBy, update_item-Keeps, child_path}
use open_ark.Template.Typed.Fills.{HasDefault, IsModel, FillsBy, find_field-All, fill_kind-Fills}
use open_ark.Template.Typed.Converts.{target-child, filled_at}
use open_ark.Template.Typed.Filled.{Conforms-filled}
use open_ark.Template.Required.{IsPresent, HasChild, children_of, IsRequired}
use open_ark.Template.Required.Visits.{Shows, words_of, visit_root-made}
use open_ark.Template.Required.Kinds.{fill_kind-made, Through, fill_kind-through}
use open_ark.Template.Required.Keeps.{
  Leaves, after_visit-Leaves, and_next-Leaves, each-Leaves, fill_default_value-Leaves, kept_round,
  loop-Leaves,
}

module _ {k : Codec} where
  module _ (laws : IsCodec k) (now words : ℕ) (spec : Fields k)
      (model : IsModel now words spec) where
    -- The round of a child makes its value present, and the others keep it.
    each-made :
        (fuel : ℕ) (path : List Part) (optional : Bool) (c : ℕ) (rest : List ℕ)
        (names : List (List ℕ)) (map : Json k)
        → IsObjectPath spec [] path
        → IsParent spec (target [] path)
        → All (λ name. name ≢ []) names
        → HasChild c names
        → ((next : Json k)
            → Conforms true spec [] next
            → Leaves spec
                (words_of path ++ c ∷ rest)
                (fill_default_value fuel now spec (path ++ child c ∷ []) optional true next))
        → Conforms true spec [] map
        → IsPresent (words_of path) map
        → Leaves spec (words_of path ++ c ∷ rest) (
            each
              (λ name next.
                fill_default_value fuel now spec
                  (sub_name path (child_part name))
                  optional
                  true
                  next)
              names
              map)
    unfolding each
    each-made fuel path optional c rest [] map way parent named has made h p = absurd has
    each-made fuel path optional c rest (name ∷ names) map way parent named (inl here) made h p =
        and_next-Leaves spec (words_of path ++ c ∷ rest) (words_of path ++ c ∷ rest) _ _
          (subst
            (λ o.
              Leaves spec (words_of path ++ c ∷ rest)
                (fill_default_value fuel now spec (sub_name path o) optional true map))
            (sym here) (made map h))
          (λ next conforms there.
            each-Leaves spec (words_of path ++ c ∷ rest) (λ n. n ≢ []) _ names next named.1
              (λ n m some_word typed q.
                kept_round laws now words spec model fuel path optional n m
                  (words_of path ++ c ∷ rest) way parent some_word typed q)
              conforms there)
    each-made fuel path optional c rest (name ∷ names) map way parent named (inr later) made h p =
        and_next-Leaves spec (words_of path) (words_of path ++ c ∷ rest) _ _
          (kept_round laws now words spec model fuel path optional name map (words_of path) way
            parent named.0 h p)
          (λ next conforms there.
            each-made fuel path optional c rest names next way parent named.1 later made conforms
              there)

    children-made :
        (fuel : ℕ) (path : List Part) (optional : Bool) (c : ℕ) (rest : List ℕ)
        (names : List (List ℕ)) (map : Json k)
        → IsObjectPath spec [] path
        → FillsBy words spec (target [] path) (descend (over_children optional names))
        → HasChild c names
        → (IsParent spec (target [] path)
            → (next : Json k) → Conforms true spec [] next
            → Leaves spec
                (words_of path ++ c ∷ rest)
                (fill_default_value fuel now spec (path ++ child c ∷ []) optional true next))
        → Conforms true spec [] map
        → IsPresent (words_of path) map
        → Leaves spec (words_of path ++ c ∷ rest) (
            run_loop
              (λ inherited atom part m.
                fill_default_value fuel now spec (sub_name path part) inherited atom m)
              (over_children optional names)
              map)
    children-made fuel path optional c rest names map way (inl empty, named, small) has made h p =
        absurd (subst (HasChild c) empty has)
    children-made fuel path optional c rest names map way (inr parent, named, small) has made h p =
        each-made fuel path optional c rest names map way parent named has (made parent) h p

    same_field :
        (field here : Field k) (name : List ℕ)
        → find_field name spec ≡ some field
        → find_field name spec ≡ some here
        → field ≡ here
    same_field field here name e e' = some-injective field here (sym e ∙ e')

    made_at :
        (path : List Part) (optional : Bool) (field : Field k) (map : Json k)
        → IsObjectPath spec [] path
        → find_field (target [] path) spec ≡ some field
        → ((v : Json k)
            → Shows (λ w. w ≢ null) (fill_kind now true field.kind (optional || field.optional) v))
        → Shows
            (IsPresent (words_of path))
            (visit_root (fill now true optional) (failed no_such_field) spec path map)
    made_at path optional field map way found made =
        visit_root-made spec _ no_such_field path map way (λ here v e.
          subst (λ (f : Field k). Shows (λ w. w ≢ null) (fill now true optional f v))
            (same_field field here (target [] path) found e) (made v))

    -- Where there is a child, the visit goes through the children.
    both_ends :
        (base : List ℕ) (names : List (List ℕ)) (optional : Bool) (r : Visited k Loop) (v : Json k)
        → r ≡ some (v, descend (over_children optional names))
        → EndsBy true spec base (FillsBy words spec base) r
        → EndsBy true spec base (λ s. FillsBy words spec base s × Through optional names s) r
    both_ends base names optional r v e h =
        subst (EndsBy true spec base (λ s. FillsBy words spec base s × Through optional names s))
          (sym e)
          (let ends = subst (EndsBy true spec base (FillsBy words spec base)) e h in
            (ends.0, (ends.1, refl)))

    Through-at :
        (path : List Part) (optional : Bool) (field : Field k) (c : ℕ) (map : Json k)
        → IsObjectPath spec [] path
        → find_field (target [] path) spec ≡ some field
        → HasChild c (children_of field.kind)
        → Conforms true spec [] map
        → EndsBy true spec []
            (λ s.
              FillsBy words spec (target [] path) s
              × Through (optional || field.optional) (children_of field.kind) s)
            (visit_root (fill now true optional) (failed no_such_field) spec path map)
    Through-at path optional field c map way found has h =
        visit_root-EndsBy true spec _ _ _ path map ((λ e. cc), tt) (λ e ne. (ne, tt)) way h
          (λ here old e conforms.
            let ((good, small), name) =
              find_field-All (λ (f : Field k). HasDefault now f.kind × (length f.name ≤ words))
                (target [] path) spec here e model in
            let same = same_field field here (target [] path) found e in
            let ends =
              fill_kind-Fills laws now words spec (target [] path) here e
                (subst (λ n. length n ≤ words) name small) here.kind (optional || here.optional) old
                refl good conforms in
            let (v, goes, some_value) =
              fill_kind-through now field.kind c (optional || field.optional) old has in
            both_ends (target [] path) (children_of field.kind) (optional || field.optional) _ v
              (subst
                (λ (f : Field k).
                  fill now true optional f old
                  ≡ some (
                    v,
                    descend (over_children (optional || field.optional) (children_of field.kind)),
                  ))
                same goes)
              ends)

    words-child :
        (base : List ℕ) (path : List Part) (c : ℕ) (name : List ℕ)
        → IsObjectPath spec base path
        → words_of (path ++ child c ∷ []) ++ name ≡ words_of path ++ c ∷ name
    words-child base [] c name way = refl
    words-child base (index i ∷ path) c name way = absurd way
    words-child base (child d ∷ path) c name way =
        ap (λ n. d ∷ n) (words-child (base ++ d ∷ []) path c name way.1)

    fill_default_value-made :
        (fuel : ℕ) (path : List Part) (optional : Bool) (map : Json k) (name : List ℕ)
        → IsObjectPath spec [] path
        → Conforms true spec [] map
        → IsRequired spec optional (target [] path) name
        → Leaves spec
            (words_of path ++ name)
            (fill_default_value fuel now spec path optional true map)
    unfolding fill_default_value
    fill_default_value-made zero path optional map name way h required = tt
    fill_default_value-made (suc fuel) path optional map [] way h
          (field, found, needed, some_kind) =
        after_visit-Leaves spec (words_of path) (words_of path ++ [])
          (FillsBy words spec (target [] path)) _ _
          (filled_at laws now words spec model path optional map way h)
          (made_at path optional field map way found (λ v.
            subst (λ b. Shows (λ w. w ≢ null) (fill_kind now true field.kind b v)) (sym needed)
              (fill_kind-made now field.kind v some_kind)))
          (λ next u conforms there.
            subst (λ n. IsPresent n next) (sym (append-nil (words_of path))) there)
          (λ loop next ready conforms there.
            loop-Leaves laws now words spec model fuel path loop next (words_of path ++ []) ready
              (λ c inherited m parent typed q.
                fill_default_value-Leaves laws now words spec model fuel (path ++ child c ∷ [])
                  inherited m (words_of path ++ []) (child_path spec [] path c way parent) typed q)
              conforms (subst (λ n. IsPresent n next) (sym (append-nil (words_of path))) there))
    fill_default_value-made (suc fuel) path optional map (c ∷ name) way h
          (field, found, has, required) =
        after_visit-Leaves spec (words_of path) (words_of path ++ c ∷ name) _ _ _
          (Through-at path optional field c map way found has h)
          (made_at path optional field map way found (λ v.
            let (w, goes, some_value) =
              fill_kind-through now field.kind c (optional || field.optional) v has in
            subst (Shows (λ u. u ≢ null)) (sym goes) some_value))
          (λ next s conforms there. absurd s.1)
          (λ loop next s conforms there.
            subst
              (λ l.
                FillsBy words spec (target [] path) (descend l)
                → Leaves spec (words_of path ++ c ∷ name) (
                    run_loop
                      (λ inherited atom part m.
                        fill_default_value fuel now spec (sub_name path part) inherited atom m)
                      l next))
              (sym s.1)
              (λ ready.
                children-made fuel path (optional || field.optional) c name (children_of field.kind)
                  next way ready has
                  (λ parent m typed.
                    subst
                      (λ n. Leaves spec n (
                        fill_default_value fuel now spec (path ++ child c ∷ [])
                          (optional || field.optional) true m))
                      (words-child [] path c name way)
                      (fill_default_value-made fuel (path ++ child c ∷ [])
                        (optional || field.optional) m name (child_path spec [] path c way parent)
                        typed
                        (subst (λ b. IsRequired spec (optional || field.optional) b name)
                          (sym (target-child spec [] path c way)) required)))
                  conforms there)
              s.0)

  found_required :
      (spec : Fields k) (name : List ℕ) (u : Updated k) (v : Json k)
      → Leaves spec name u
      → outcome u ≡ some (ok v)
      → IsPresent name v
  found_required spec name none v h e = absurd (cc)
  found_required spec name (some (map, none)) v h e =
      subst (IsPresent name) (ok-injective map v (some-injective _ _ e)) h.1
  found_required spec name (some (map, some error)) v h e = absurd (cc)

  after_update :
      (spec : Fields k) (name : List ℕ) (u : Updated k) (next : Json k → Updated k)
      → Keeps false spec u
      → ((map : Json k) → Conforms true spec [] map → Leaves spec name (next map))
      → Leaves spec name (and_next u next)
  after_update spec name none next h rest = tt
  after_update spec name (some (map, some e)) next h rest = tt
  after_update spec name (some (map, none)) next h rest = rest map (Conforms-filled spec [] map h)

-- An item that is converted has a value, not null, under every name that its model requires: a name
-- that leads from the root through the children that the objects list, where neither the field nor any
-- above it may be missing; if the defaults of the model have the types of their fields, a dynamic object
-- lists no children, every child has a name, and an integer is read back as it was written.
pub convert_model_item-IsPresent :
    (k : Codec) (laws : IsCodec k) (fuel now words : ℕ) (spec : Fields k) (value v : Json k)
    (name : List ℕ)
    → IsModel now words spec
    → IsRequired spec false [] name
    → convert_model_item fuel now spec value ≡ some (ok v)
    → IsPresent name v
unfolding convert_model_item Conforms
convert_model_item-IsPresent k laws fuel now words spec value v name model required h =
    found_required spec name _ v
      (after_update spec name (update_item spec [] value false null) _
        (update_item-Keeps spec [] value false null tt tt)
        (λ map conforms.
          fill_default_value-made laws now words spec model fuel [] false map name tt conforms
            required))
      h
