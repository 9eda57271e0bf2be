-- ===== src/Template/Typed/Converts.antt =====
-- An item that is converted has the types of its model, and the conversion ends.
use open_ark.Prelude.{
  ℕ, zero, suc, ◌+◌, ◌≤◌, Bool, true, false, ◌||◌, Option, none, some, List, [], ◌∷◌, ◌++◌, length,
  length-append, last, ◌≡◌, ◌≢◌, inl, inr, refl, sym, ap, subst, ◌∙◌, All, Result, ok, err, arith,
}
use open_ark.Template.{
  Part, index, child, Codec, IsCodec, Json, null, Field, Fields, InputError, stack_overflow,
  no_such_field,
}
use open_ark.Template.Visit.{failed, descend, visit_root, Updated, and_next, sub_name}
use open_ark.Template.Item.{update_item}
use open_ark.Template.Fill.{
  Loop, over_children, over_items, child_part, fill, each, run_loop, fill_default_value, outcome,
  convert_model_item,
}
use open_ark.Template.Typed.{Conforms}
use open_ark.Template.Typed.Visits.{EndsBy, IsParent, IsObjectPath, target}
use open_ark.Template.Typed.Updates.{
  Keeps, after_visit-Keeps, and_next-Keeps, visit_root-EndsBy, update_item-Keeps, child_path,
}
use open_ark.Template.Typed.Fills.{HasDefault, IsModel, FillsBy, find_field-All, fill_kind-Fills}
use open_ark.Template.Typed.Filled.{Conforms-filled}

module _ {k : Codec} where
  each-Keeps :
      {A : Type 0} (spec : Fields k) (Q : A → Type 0) (body : A → Json k → Updated k)
      (items : List A) (map : Json k)
      → All Q items
      → ((a : A) (next : Json k) → Q a → Conforms true spec [] next → Keeps true spec (body a next))
      → Conforms true spec [] map
      → Keeps true spec (each body items map)
  unfolding each
  each-Keeps spec Q body [] map all fine h = h
  each-Keeps spec Q body (a ∷ items) map all fine h =
      and_next-Keeps true spec (body a map) _ (fine a map all.0 h)
        (λ next conforms. each-Keeps spec Q body items next all.1 fine conforms)

some-last : (name : List ℕ) → name ≢ [] → (c : ℕ) × (last name ≡ some c)
some-last [] h = absurd (h refl)
some-last (x ∷ []) h = (x, refl)
some-last (x ∷ y ∷ ys) h = some-last (y ∷ ys) (λ e. cc)

pub child_part-some : (name : List ℕ) → name ≢ [] → (c : ℕ) × (child_part name ≡ some (child c))
child_part-some name h =
    let (c, e) = some-last name h in
    (c, ap (λ o. elim o [ some d ↦ some (child d) | none ↦ none ]) e)

module _ {k : Codec} where
  pub target-child :
      (spec : Fields k) (base : List ℕ) (path : List Part) (c : ℕ)
      → IsObjectPath spec base path
      → target base (path ++ child c ∷ []) ≡ target base path ++ c ∷ []
  target-child spec base [] c way = refl
  target-child spec base (index i ∷ path) c way = absurd way
  target-child spec base (child d ∷ path) c way = target-child spec (base ++ d ∷ []) path c way.1

  -- Filling at a name of words, on as much fuel as the names of the model have words left, and two
  module _ (laws : IsCodec k) (now words : ℕ) (spec : Fields k)
      (model : IsModel now words spec) where
    pub filled_at :
        (path : List Part) (optional : Bool) (map : Json k)
        → IsObjectPath spec [] path
        → Conforms true spec [] map
        → EndsBy true spec []
            (FillsBy words spec (target [] path))
            (visit_root (fill now true optional) (failed no_such_field) spec path map)
    filled_at path optional map way h =
        visit_root-EndsBy true spec _ _ (FillsBy words spec (target [] path)) path map (λ e. cc)
          (λ e ne. ne) way h
          (λ here old found conforms.
            let ((good, small), name) =
              find_field-All (λ (f : Field k). HasDefault now f.kind × (length f.name ≤ words))
                (target [] path) spec here found model in
            fill_kind-Fills laws now words spec (target [] path) here found
              (subst (λ n. length n ≤ words) name small) here.kind (optional || here.optional) old
              refl good conforms)

    -- The loops, by what is done at a child
    loop-Keeps :
        (fuel : ℕ) (path : List Part) (loop : Loop) (map : Json k)
        → FillsBy words spec (target [] path) (descend loop)
        → ((c : ℕ) (optional : Bool) (next : Json k)
            → IsParent spec (target [] path)
            → length (target [] path) ≤ words
            → Conforms true spec [] next
            → Keeps true spec
                (fill_default_value fuel now spec (path ++ child c ∷ []) optional true next))
        → Conforms true spec [] map
        → Keeps true spec (
            run_loop
              (λ inherited atom part m.
                fill_default_value fuel now spec (sub_name path part) inherited atom m)
              loop
              map)
    unfolding each
    loop-Keeps fuel path (over_items optional n) map none_left rest h =
        subst
          (λ m. Keeps true spec (
            run_loop
              (λ inherited atom part m.
                fill_default_value fuel now spec (sub_name path part) inherited atom m)
              (over_items optional m) map))
          (sym none_left) h
    loop-Keeps fuel path (over_children optional names) map (inl empty, named, small) rest h =
        subst
          (λ ns. Keeps true spec (
            run_loop
              (λ inherited atom part m.
                fill_default_value fuel now spec (sub_name path part) inherited atom m)
              (over_children optional ns) map))
          (sym empty) h
    loop-Keeps fuel path (over_children optional names) map (inr parent, named, small) rest h =
        each-Keeps spec (λ name. name ≢ []) _ names map named
          (λ name next has conforms.
            let (c, e) = child_part-some name has in
            subst
              (λ o.
                Keeps true spec
                  (fill_default_value fuel now spec (sub_name path o) optional true next))
              (sym e) (rest c optional next parent small conforms))
          h

    pub fill_default_value-Keeps :
        (fuel : ℕ) (path : List Part) (optional : Bool) (map : Json k)
        → IsObjectPath spec [] path
        → words + 2 ≤ fuel + length (target [] path)
        → length (target [] path) ≤ words + 1
        → Conforms true spec [] map
        → Keeps true spec (fill_default_value fuel now spec path optional true map)
    unfolding fill_default_value each
    fill_default_value-Keeps zero path optional map way low high h =
        absurd (omega (arith, low, high))
    fill_default_value-Keeps (suc fuel) path optional map way low high h =
        after_visit-Keeps true spec (FillsBy words spec (target [] path)) _ _
          (filled_at path optional map way h) (λ e ne. ne)
          (λ loop next ready conforms.
            loop-Keeps fuel path loop next ready
              (λ c inherited m parent small typed.
                let longer =
                  ap length (target-child spec [] path c way)
                  ∙ length-append (target [] path) (c ∷ []) in
                fill_default_value-Keeps fuel (path ++ child c ∷ []) inherited m
                  (child_path spec [] path c way parent) (omega (arith, longer, low))
                  (omega (arith, longer, small)) typed)
              conforms)

module _ {k : Codec} where
  -- What comes of a conversion: a panic, an item of the model, or an error that is not of the stack
  abbrev Converts : Fields k → Option (Result InputError (Json k)) → Type 0
  Converts spec none = Unit
  Converts spec (some (ok v)) = Conforms true spec [] v
  Converts spec (some (err e)) = e ≢ stack_overflow

  fills_convert : (spec : Fields k) (u : Updated k) → Keeps true spec u → Converts spec (outcome u)
  fills_convert spec none h = tt
  fills_convert spec (some (map, none)) h = h
  fills_convert spec (some (map, some e)) h = h.1

  -- The defaults are filled into what an update leaves.
  after_update :
      (spec : Fields k) (u : Updated k) (next : Json k → Updated k)
      → Keeps false spec u
      → ((map : Json k) → Conforms true spec [] map → Keeps true spec (next map))
      → Keeps true spec (and_next u next)
  after_update spec none next h rest = tt
  after_update spec (some (map, some e)) next h rest = (Conforms-filled spec [] map h.0, h.1)
  after_update spec (some (map, none)) next h rest = rest map (Conforms-filled spec [] map h)

  conversion :
      (fuel now words : ℕ) (spec : Fields k) (value : Json k)
      → IsCodec k
      → IsModel now words spec
      → words + 2 ≤ fuel
      → Converts spec (convert_model_item fuel now spec value)
  unfolding convert_model_item Conforms
  conversion fuel now words spec value laws model enough = fills_convert spec _ (
      after_update spec (update_item spec [] value false null) _
        (update_item-Keeps spec [] value false null tt tt)
        (λ map conforms.
          fill_default_value-Keeps laws now words spec model fuel [] false map tt
            (omega (arith, enough)) (omega arith) conforms))

-- An item that is converted has the types of its model: it is the value of the root, each number within
-- its bounds, each text of its length or format, among its choices if it has choices, each map with
-- parts that have a field and its type in turn, and each object array empty; if the defaults of the
-- model have the types of their fields, those of numbers with a fraction as they are read after they were
-- printed and parsed, a dynamic object lists no children, every child has a name, an integer is read
-- back as it was written, and the stack is as deep as the longest name has words, and two.
pub convert_model_item-Conforms :
    (k : Codec) (laws : IsCodec k) (fuel now words : ℕ) (spec : Fields k) (value v : Json k)
    → IsModel now words spec
    → words + 2 ≤ fuel
    → convert_model_item fuel now spec value ≡ some (ok v)
    → Conforms true spec [] v
convert_model_item-Conforms k laws fuel now words spec value v model enough h =
    subst (Converts spec) h (conversion fuel now words spec value laws model enough)

-- In the conversion of an item, the calls of `fill_default_value` nest no deeper than the names of the
-- model have words, and two, whatever the item: with a stack as deep as that the conversion does not run
-- out of it. The update before it goes down the item itself, and is not measured. The defaults of the
-- model have the types of their fields, a dynamic object lists no children, every child has a name, and
-- an integer is read back as it was written.
pub convert_model_item_ends :
    (k : Codec) (laws : IsCodec k) (fuel now words : ℕ) (spec : Fields k) (value : Json k)
    → IsModel now words spec
    → words + 2 ≤ fuel
    → convert_model_item fuel now spec value ≢ some (err stack_overflow)
convert_model_item_ends k laws fuel now words spec value model enough h =
    subst (Converts spec) h (conversion fuel now words spec value laws model enough) refl
