-- ===== src/Template/Required/Keeps.antt =====
-- Filling keeps the values that are present.
use open_ark.Prelude.{
  ℕ, zero, suc, Bool, true, ◌||◌, none, some, List, [], ◌∷◌, ◌++◌, ◌≢◌, inl, inr, sym, subst, All,
}
use open_ark.Template.{Part, child, Codec, IsCodec, Json, Fields, no_such_field}
use open_ark.Template.Visit.{
  Step, done, failed, descend, Visited, visit_root, Updated, after_visit, and_next, sub_name,
}
use open_ark.Template.Fill.{
  Loop, over_children, over_items, child_part, fill, each, run_loop, fill_default_value,
}
use open_ark.Template.Typed.{Conforms}
use open_ark.Template.Typed.Visits.{EndsBy, IsParent, IsObjectPath, target}
use open_ark.Template.Typed.Updates.{child_path}
use open_ark.Template.Typed.Fills.{IsModel, FillsBy}
use open_ark.Template.Typed.Converts.{child_part-some, filled_at}
use open_ark.Template.Required.{IsPresent}
use open_ark.Template.Required.Visits.{Shows, visit_root-Shows}
use open_ark.Template.Required.Kinds.{present_is_some, none_is_null, fill_kind-kept}

module _ {k : Codec} where
  -- The template of filling that does not fail conforms, and has a value under the name.
  abbrev pub Leaves : Fields k → List ℕ → Updated k → Type 0
  Leaves spec name none = Unit
  Leaves spec name (some (map, none)) = Conforms true spec [] map × IsPresent name map
  Leaves spec name (some (map, some e)) = Unit

  pub after_visit-Leaves :
      (spec : Fields k) (name goal : List ℕ) (S : Step Loop → Type 0) (v : Visited k Loop)
      (loop : Loop → Json k → Updated k)
      → EndsBy true spec [] S v
      → Shows (IsPresent name) v
      → ((map : Json k)
          → S done
          → Conforms true spec [] map
          → IsPresent name map
          → IsPresent goal map)
      → ((d : Loop) (map : Json k)
          → S (descend d)
          → Conforms true spec [] map
          → IsPresent name map
          → Leaves spec goal (loop d map))
      → Leaves spec goal (after_visit v loop)
  after_visit-Leaves spec name goal S none loop h p end rest = tt
  after_visit-Leaves spec name goal S (some (map, done)) loop h p end rest =
      (h.0, end map h.1 h.0 p)
  after_visit-Leaves spec name goal S (some (map, failed e)) loop h p end rest = tt
  after_visit-Leaves spec name goal S (some (map, descend d)) loop h p end rest =
      rest d map h.1 h.0 p

  pub and_next-Leaves :
      (spec : Fields k) (name goal : List ℕ) (u : Updated k) (next : Json k → Updated k)
      → Leaves spec name u
      → ((map : Json k)
          → Conforms true spec [] map
          → IsPresent name map
          → Leaves spec goal (next map))
      → Leaves spec goal (and_next u next)
  and_next-Leaves spec name goal none next h rest = tt
  and_next-Leaves spec name goal (some (map, some e)) next h rest = tt
  and_next-Leaves spec name goal (some (map, none)) next h rest = rest map h.0 h.1

  pub each-Leaves :
      {A : Type 0} (spec : Fields k) (name : List ℕ) (Q : A → Type 0)
      (body : A → Json k → Updated k) (items : List A) (map : Json k)
      → All Q items
      → ((a : A) (next : Json k)
          → Q a
          → Conforms true spec [] next
          → IsPresent name next
          → Leaves spec name (body a next))
      → Conforms true spec [] map
      → IsPresent name map
      → Leaves spec name (each body items map)
  unfolding each
  each-Leaves spec name Q body [] map all keeps h p = (h, p)
  each-Leaves spec name Q body (a ∷ items) map all keeps h p =
      and_next-Leaves spec name name (body a map) _ (keeps a map all.0 h p)
        (λ next conforms there. each-Leaves spec name Q body items next all.1 keeps conforms there)

  module _ (laws : IsCodec k) (now words : ℕ) (spec : Fields k)
      (model : IsModel now words spec) where
    kept_at :
        (path : List Part) (optional : Bool) (name : List ℕ) (map : Json k)
        → IsObjectPath spec [] path
        → Conforms true spec [] map
        → IsPresent name map
        → Shows
            (IsPresent name)
            (visit_root (fill now true optional) (failed no_such_field) spec path map)
    kept_at path optional name map way h p =
        visit_root-Shows true spec _ _ path name map way h
          (λ here rest v found conforms q.
            fill_kind-kept now here.kind (optional || here.optional) v (IsPresent rest)
              (λ e.
                present_is_some rest v q
                  (none_is_null true spec (target [] path) here v found e conforms))
              (present_is_some rest v q) q)
          p

    -- A loop keeps what is present, if filling at a child does.
    pub loop-Leaves :
        (fuel : ℕ) (path : List Part) (loop : Loop) (map : Json k) (name : List ℕ)
        → FillsBy words spec (target [] path) (descend loop)
        → ((c : ℕ) (optional : Bool) (next : Json k)
            → IsParent spec (target [] path)
            → Conforms true spec [] next
            → IsPresent name next
            → Leaves spec name
                (fill_default_value fuel now spec (path ++ child c ∷ []) optional true next))
        → Conforms true spec [] map
        → IsPresent name map
        → Leaves spec name (
            run_loop
              (λ inherited atom part m.
                fill_default_value fuel now spec (sub_name path part) inherited atom m)
              loop
              map)
    unfolding each
    loop-Leaves fuel path (over_items optional n) map name none_left rest h p =
        subst
          (λ m. Leaves spec name (
            run_loop
              (λ inherited atom part m.
                fill_default_value fuel now spec (sub_name path part) inherited atom m)
              (over_items optional m) map))
          (sym none_left) (h, p)
    loop-Leaves fuel path (over_children optional names) map name (inl empty, named, small) rest h
          p =
        subst
          (λ ns. Leaves spec name (
            run_loop
              (λ inherited atom part m.
                fill_default_value fuel now spec (sub_name path part) inherited atom m)
              (over_children optional ns) map))
          (sym empty) (h, p)
    loop-Leaves fuel path (over_children optional names) map name (inr parent, named, small) rest h
          p =
        each-Leaves spec name (λ n. n ≢ []) _ names map named
          (λ n next has conforms there.
            let (c, e) = child_part-some n has in
            subst
              (λ o.
                Leaves spec name
                  (fill_default_value fuel now spec (sub_name path o) optional true next))
              (sym e) (rest c optional next parent conforms there))
          h p

    -- Filling keeps what is present.
    pub fill_default_value-Leaves :
        (fuel : ℕ) (path : List Part) (optional : Bool) (map : Json k) (name : List ℕ)
        → IsObjectPath spec [] path
        → Conforms true spec [] map
        → IsPresent name map
        → Leaves spec name (fill_default_value fuel now spec path optional true map)
    unfolding fill_default_value
    fill_default_value-Leaves zero path optional map name way h p = tt
    fill_default_value-Leaves (suc fuel) path optional map name way h p =
        after_visit-Leaves spec name name (FillsBy words spec (target [] path)) _ _
          (filled_at laws now words spec model path optional map way h)
          (kept_at path optional name map way h p) (λ next u conforms there. there)
          (λ loop next ready conforms there.
            loop-Leaves fuel path loop next name ready
              (λ c inherited m parent typed q.
                fill_default_value-Leaves fuel (path ++ child c ∷ []) inherited m name
                  (child_path spec [] path c way parent) typed q)
              conforms there)

    pub kept_round :
        (fuel : ℕ) (path : List Part) (optional : Bool) (n : List ℕ) (m : Json k) (goal : List ℕ)
        → IsObjectPath spec [] path
        → IsParent spec (target [] path)
        → n ≢ []
        → Conforms true spec [] m
        → IsPresent goal m
        → Leaves spec goal
            (fill_default_value fuel now spec (sub_name path (child_part n)) optional true m)
    kept_round fuel path optional n m goal way parent some_word typed q =
        let (d, e) = child_part-some n some_word in
        subst
          (λ o.
            Leaves spec goal (fill_default_value fuel now spec (sub_name path o) optional true m))
          (sym e)
          (fill_default_value-Leaves fuel (path ++ child d ∷ []) optional m goal
            (child_path spec [] path d way parent) typed q)
