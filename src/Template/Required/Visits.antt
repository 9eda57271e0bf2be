-- ===== src/Template/Required/Visits.antt =====
-- A visit keeps the values that are present, and makes the one that it visits present.
use open_ark.Prelude.{
  ℕ, Bool, false, Bool-cases, Option, none, some, List, [], ◌∷◌, ◌++◌, ◌≡◌, ◌≢◌, inl, inr, refl,
  sym, ap, subst, ◌∙◌, eqb, eqb_iff, if◌then◌else◌, if_rule, unwrap_or,
}
use open_ark.Template.{
  Part, index, child, Codec, Json, null, boolean, number, string, array, object, Entries,
  no_entries, entry, Field, Fields, InputError,
}
use open_ark.Template.Visit.{
  Step, done, failed, descend, find_field, find_entry, set_entry, Visited, in_object, enter_object,
  visit, from_root, visit_root,
}
use open_ark.Template.Typed.{Conforms}
use open_ark.Template.Typed.Visits.{IsObjectPath, target, parts_of, found-Conforms}
use open_ark.Template.Required.{IsPresent}

module _ {k : Codec} where
  object_entries : (es fs : Entries k) → ◌≡◌ {A = Json k} (object es) (object fs) → es ≡ fs
  object_entries es fs h = cc

  find-set_entry : (c : ℕ) (v : Json k) (es : Entries k) → find_entry c (set_entry c v es) ≡ some v
  unfolding find_entry set_entry
  find-set_entry c v no_entries = ap (λ b. if b then some v else none) ((eqb_iff c c).1 refl)
  find-set_entry c v (entry d w es) =
      if_rule (λ fs. find_entry c fs ≡ some v) (eqb d c)
        (λ same. ap (λ b. if b then some v else find_entry c es) same)
        (λ other.
          ap (λ b. if b then some w else find_entry c (set_entry c v es)) other
          ∙ find-set_entry c v es)

  find-set_entry_other :
      (c d : ℕ) (v : Json k) (es : Entries k)
      → eqb c d ≡ false
      → find_entry d (set_entry c v es) ≡ find_entry d es
  unfolding find_entry set_entry
  find-set_entry_other c d v no_entries h = ap (λ b. if b then some v else none) h
  find-set_entry_other c d v (entry e w es) h =
      if_rule (λ fs. find_entry d fs ≡ find_entry d (entry e w es)) (eqb e c)
        (λ same.
          let apart : eqb e d ≡ false =
            subst (λ n. eqb n d ≡ false) (sym ((eqb_iff e c).0 same)) h in
          ap (λ b. if b then some v else find_entry d es) apart
          ∙ sym (ap (λ b. if b then some w else find_entry d es) apart))
        (λ other. ap (λ r. if eqb e d then some w else r) (find-set_entry_other c d v es h))

  -- What is shown of the value of a visit that does not fail
  abbrev pub Shows : {D : Type 0} → (Json k → Type 0) → Visited k D → Type 0
  Shows Q none = Unit
  Shows Q (some (v, done)) = Q v
  Shows Q (some (v, failed e)) = Unit
  Shows Q (some (v, descend d)) = Q v

  Shows-step :
      {D : Type 0} (Q : Json k → Type 0) (v : Json k) (step : Step D)
      → Q v
      → Shows Q (some (v, step))
  Shows-step Q v done h = h
  Shows-step Q v (failed e) h = tt
  Shows-step Q v (descend d) h = h

  in_object-root :
      {D : Type 0} (c : ℕ) (es : Entries k) (r : Visited k D)
      → Shows (λ v. v ≢ null) (in_object c es r)
  in_object-root c es none = tt
  in_object-root c es (some (v, step)) = Shows-step (λ v. v ≢ null) _ step (λ e. cc)

  in_object-here :
      {D : Type 0} (c : ℕ) (name : List ℕ) (es : Entries k) (r : Visited k D)
      → Shows (IsPresent name) r
      → Shows (IsPresent (c ∷ name)) (in_object c es r)
  in_object-here c name es none h = tt
  in_object-here c name es (some (v, done)) h =
      (set_entry c v es, v, refl, find-set_entry c v es, h)
  in_object-here c name es (some (v, failed e)) h = tt
  in_object-here c name es (some (v, descend d)) h =
      (set_entry c v es, v, refl, find-set_entry c v es, h)

  in_object-there :
      {D : Type 0} (c d : ℕ) (name : List ℕ) (es : Entries k) (w : Json k) (r : Visited k D)
      → eqb c d ≡ false
      → find_entry d es ≡ some w
      → IsPresent name w
      → Shows (IsPresent (d ∷ name)) (in_object c es r)
  in_object-there c d name es w none apart e h = tt
  in_object-there c d name es w (some (v, step)) apart e h =
      Shows-step (IsPresent (d ∷ name)) _ step
        (set_entry c v es, w, refl, find-set_entry_other c d v es apart ∙ e, h)

  -- The part of an object that is visited, and the name of another value
  in_object-Shows :
      {D : Type 0} (c : ℕ) (name : List ℕ) (es : Entries k) (go : Json k → Visited k D)
      → ((rest : List ℕ) (v : Json k)
          → find_entry c es ≡ some v
          → IsPresent rest v
          → Shows (IsPresent rest) (go v))
      → IsPresent name (object es)
      → Shows (IsPresent name) (in_object c es (go (unwrap_or (find_entry c es) null)))
  in_object-Shows c [] es go keeps h = in_object-root c es (go (unwrap_or (find_entry c es) null))
  in_object-Shows c (d ∷ name) es go keeps (fs, w, same, e, h) =
      let e' : find_entry d es ≡ some w = ap (find_entry d) (object_entries es fs same) ∙ e in
      elim (Bool-cases (eqb c d)) [
        | inr apart ↦
            in_object-there c d name es w (go (unwrap_or (find_entry c es) null)) apart e' h
        | inl here ↦
            let e'' : find_entry c es ≡ some w =
              ap (λ n. find_entry n es) ((eqb_iff c d).0 here) ∙ e' in
            subst
              (λ n.
                Shows (IsPresent (n ∷ name))
                  (in_object c es (go (unwrap_or (find_entry c es) null))))
              ((eqb_iff c d).0 here)
              (in_object-here c name es (go (unwrap_or (find_entry c es) null)) (
                subst (λ o. Shows (IsPresent name) (go (unwrap_or o null))) (sym e'')
                  (keeps name w e'' h)))
      ]

  enter_object-Shows :
      {D : Type 0} (missing : Step D) (o : Option (Field k)) (c : ℕ) (name : List ℕ) (json : Json k)
      (go : Field k → Json k → Visited k D)
      → ((here : Field k) (rest : List ℕ) (es : Entries k) (v : Json k)
          → o ≡ some here
          → json ≡ object es
          → find_entry c es ≡ some v
          → IsPresent rest v
          → Shows (IsPresent rest) (go here v))
      → IsPresent name json
      → Shows (IsPresent name) (enter_object missing o c json go)
  enter_object-Shows missing none c name json go keeps h =
      Shows-step (IsPresent name) json missing h
  enter_object-Shows missing (some here) c [] null go keeps h = absurd (h refl)
  enter_object-Shows missing (some here) c (d ∷ name) null go keeps (es, v, e, at, rest) =
      absurd (cc)
  enter_object-Shows missing (some here) c name (object es) go keeps h =
      in_object-Shows c name es (go here) (λ rest v e p. keeps here rest es v refl refl e p) h
  enter_object-Shows missing (some here) c name (boolean b) go keeps h = tt
  enter_object-Shows missing (some here) c name (number n) go keeps h = tt
  enter_object-Shows missing (some here) c name (string t) go keeps h = tt
  enter_object-Shows missing (some here) c name (array xs) go keeps h = tt

  -- What is present stays so, if it does at the end of the visit.
  pub visit-Shows :
      {D : Type 0} (filled : Bool) (spec : Fields k) (act : Field k → Json k → Visited k D)
      (missing : Step D) (base : List ℕ) (field : Field k) (path : List Part) (name : List ℕ)
      (json : Json k)
      → IsObjectPath spec base path
      → find_field base spec ≡ some field
      → Conforms filled spec base json
      → ((here : Field k) (rest : List ℕ) (v : Json k)
          → find_field (target base path) spec ≡ some here
          → Conforms filled spec (target base path) v
          → IsPresent rest v
          → Shows (IsPresent rest) (act here v))
      → IsPresent name json
      → Shows (IsPresent name) (visit act missing spec base field path json)
  unfolding visit Conforms
  visit-Shows filled spec act missing base field [] name json way e h acts p =
      acts field name json e h p
  visit-Shows filled spec act missing base field (index i ∷ path) name json way e h acts p =
      absurd way
  visit-Shows filled spec act missing base field (child c ∷ path) name json way e h acts p =
      enter_object-Shows missing (find_field (base ++ c ∷ []) spec) c name json _
        (λ here rest es v found same at q.
          visit-Shows filled spec act missing (base ++ c ∷ []) here path rest v way.1 found
            (subst (λ o. Conforms filled spec (base ++ c ∷ []) (unwrap_or o null)) at
              (found-Conforms filled spec base c es (
                parts_of (find_field base spec) _ way.0
                  (subst (λ j. Conforms filled spec base j) same h))))
            acts q)
        p

-- The name of a field without the indices
abbrev pub words_of : List Part → List ℕ
words_of [] = []
words_of (index i ∷ path) = words_of path
words_of (child c ∷ path) = c ∷ words_of path

module _ {k : Codec} where
  enter_object-made :
      {D : Type 0} (error : InputError) (o : Option (Field k)) (c : ℕ) (name : List ℕ)
      (json : Json k) (go : Field k → Json k → Visited k D)
      → ((here : Field k) (v : Json k) → o ≡ some here → Shows (IsPresent name) (go here v))
      → Shows (IsPresent (c ∷ name)) (enter_object (failed error) o c json go)
  enter_object-made error none c name json go made = tt
  enter_object-made error (some here) c name null go made =
      in_object-here c name no_entries (go here null) (made here null refl)
  enter_object-made error (some here) c name (object es) go made =
      in_object-here c name es (go here (unwrap_or (find_entry c es) null))
        (made here (unwrap_or (find_entry c es) null) refl)
  enter_object-made error (some here) c name (boolean b) go made = tt
  enter_object-made error (some here) c name (number n) go made = tt
  enter_object-made error (some here) c name (string t) go made = tt
  enter_object-made error (some here) c name (array xs) go made = tt

  -- A visit makes its field present, if what is done at its end does.
  pub visit-made :
      {D : Type 0} (spec : Fields k) (act : Field k → Json k → Visited k D) (error : InputError)
      (base : List ℕ) (field : Field k) (path : List Part) (json : Json k)
      → IsObjectPath spec base path
      → find_field base spec ≡ some field
      → ((here : Field k) (v : Json k)
          → find_field (target base path) spec ≡ some here
          → Shows (λ w. w ≢ null) (act here v))
      → Shows (IsPresent (words_of path)) (visit act (failed error) spec base field path json)
  unfolding visit
  visit-made spec act error base field [] json way e acts = acts field json e
  visit-made spec act error base field (index i ∷ path) json way e acts = absurd way
  visit-made spec act error base field (child c ∷ path) json way e acts =
      enter_object-made error (find_field (base ++ c ∷ []) spec) c (words_of path) json _
        (λ here v found. visit-made spec act error (base ++ c ∷ []) here path v way.1 found acts)

  root-Shows :
      {D : Type 0} (Q : Json k → Type 0) (o : Option (Field k)) (map : Json k)
      (go : Field k → Json k → Visited k D)
      → ((root : Field k) → o ≡ some root → Shows Q (go root map))
      → Shows Q (from_root o map go)
  root-Shows Q none map go h = tt
  root-Shows Q (some root) map go h = h root refl

  pub visit_root-Shows :
      {D : Type 0} (filled : Bool) (spec : Fields k) (act : Field k → Json k → Visited k D)
      (missing : Step D) (path : List Part) (name : List ℕ) (map : Json k)
      → IsObjectPath spec [] path
      → Conforms filled spec [] map
      → ((here : Field k) (rest : List ℕ) (v : Json k)
          → find_field (target [] path) spec ≡ some here
          → Conforms filled spec (target [] path) v
          → IsPresent rest v
          → Shows (IsPresent rest) (act here v))
      → IsPresent name map
      → Shows (IsPresent name) (visit_root act missing spec path map)
  unfolding visit_root
  visit_root-Shows filled spec act missing path name map way h acts p =
      root-Shows (IsPresent name) (find_field [] spec) map _
        (λ root e. visit-Shows filled spec act missing [] root path name map way e h acts p)

  pub visit_root-made :
      {D : Type 0} (spec : Fields k) (act : Field k → Json k → Visited k D) (error : InputError)
      (path : List Part) (map : Json k)
      → IsObjectPath spec [] path
      → ((here : Field k) (v : Json k)
          → find_field (target [] path) spec ≡ some here
          → Shows (λ w. w ≢ null) (act here v))
      → Shows (IsPresent (words_of path)) (visit_root act (failed error) spec path map)
  unfolding visit_root
  visit_root-made spec act error path map way acts =
      root-Shows (IsPresent (words_of path)) (find_field [] spec) map _
        (λ root e. visit-made spec act error [] root path map way e acts)
