-- ===== src/Dependency/Passes.antt =====
-- A second rule for the loops over the nodes: each node is served once the loop has passed it, and
-- the loop loses nothing of its pipelines and its queue.
use mathlib.Core.List.{Memᴰ}
use mathlib.Core.List.Memᴰ
use mathlib.Core.Option.{some-injective}
use native.Mathlib.Nat.{add-zero, add-suc, suc-add}
use open_ark.Prelude.{ℕ, zero, suc, ◌+◌, ◌≡◌, ◌≢◌, subst, some, List, [], ◌∷◌, ◌++◌, get_elem?}
use open_ark.Dependency.{Node, GraphPipeline, GraphVisitState, Flow, found, running, scan}
use open_ark.Dependency.Scan.{Body}

pub append-ne-nil : (ps : List GraphPipeline) (p : GraphPipeline) → ps ++ p ∷ [] ≢ []
append-ne-nil [] p h = cc
append-ne-nil (q ∷ ps) p h = cc

module _ {F : Type 0} where
  -- What a loop leaves of its pipelines and its queue.
  pub record Extends (ps : List GraphPipeline) (qs : List (GraphVisitState F))
      (ps' : List GraphPipeline) (qs' : List (GraphVisitState F)) : Type 0 where
    pub pipelines : ps' ≡ [] → ps ≡ []
    pub queue : (s : GraphVisitState F) → Memᴰ s qs → Memᴰ s qs'

  pub Extends-refl : (ps : List GraphPipeline) (qs : List (GraphVisitState F)) → Extends ps qs ps qs
  Extends-refl ps qs = record { pipelines = λ h. h; queue = λ s m. m }

  Extends-trans :
      {ps : List GraphPipeline} {qs : List (GraphVisitState F)} {ps' : List GraphPipeline}
      {qs' : List (GraphVisitState F)} {ps'' : List GraphPipeline} {qs'' : List (GraphVisitState F)}
      → Extends ps qs ps' qs'
      → Extends ps' qs' ps'' qs''
      → Extends ps qs ps'' qs''
  Extends-trans a b = record {
    pipelines = λ h. a.pipelines (b.pipelines h);
    queue = λ s m. b.queue s (a.queue s m);
  }

  pub Extends-push :
      (ps : List GraphPipeline) (qs ss : List (GraphVisitState F)) → Extends ps qs ps (qs ++ ss)
  Extends-push ps qs ss = record { pipelines = λ h. h; queue = λ s m. Memᴰ.append_left ss m }

  pub Extends-add :
      (ps : List GraphPipeline) (qs : List (GraphVisitState F)) (p : GraphPipeline)
      → Extends ps qs (ps ++ p ∷ []) qs
  Extends-add ps qs p = record { pipelines = λ h. absurd (append-ne-nil ps p h); queue = λ s m. m }

  -- `Served`: what is asked of a node, once the loop has passed it.
  module _ (Served : ℕ → Node F → List GraphPipeline → List (GraphVisitState F) → Type 0)
      (mono : (i : ℕ) (n : Node F) (ps : List GraphPipeline) (qs : List (GraphVisitState F))
          (ps' : List GraphPipeline) (qs' : List (GraphVisitState F))
        → Extends ps qs ps' qs'
        → Served i n ps qs
        → Served i n ps' qs') where
    abbrev pub Passes : ℕ → Node F → List GraphPipeline → List (GraphVisitState F) → Flow F → Type 0
    Passes i n ps qs (found p) = Unit
    Passes i n ps qs (running ps' qs') = Extends ps qs ps' qs' × Served i n ps' qs'

    abbrev pub PassesAll :
        ℕ → List (Node F) → List GraphPipeline → List (GraphVisitState F) → Flow F → Type 0
    PassesAll i ns ps qs (found p) = Unit
    PassesAll i ns ps qs (running ps' qs') =
        Extends ps qs ps' qs'
        × ((k : ℕ) (n : Node F) → get_elem? ns k ≡ some n → Served (i + k) n ps' qs')

    PassesAll-cons :
        (i : ℕ) (n : Node F) (ns : List (Node F)) (ps : List GraphPipeline)
        (qs : List (GraphVisitState F)) (ps' : List GraphPipeline) (qs' : List (GraphVisitState F))
        (f : Flow F)
        → Extends ps qs ps' qs' × Served i n ps' qs'
        → PassesAll (suc i) ns ps' qs' f
        → PassesAll i (n ∷ ns) ps qs f
    PassesAll-cons i n ns ps qs ps' qs' (found p) h rest = tt
    PassesAll-cons i n ns ps qs ps' qs' (running ps'' qs'') h rest =
        (Extends-trans h.0 rest.0, later)
      where
        later : (k : ℕ) (m : Node F) → get_elem? (n ∷ ns) k ≡ some m → Served (i + k) m ps'' qs''
        later zero m e = rw add-zero (
            subst (λ x. Served i x ps'' qs'') (some-injective _ _ e)
              (mono i n ps' qs' ps'' qs'' rest.0 h.1))
        later (suc k) m e = rw (add-suc, ← suc-add) (rest.1 k m e)

    pub scan-Passes :
        (body : Body F)
        → ((i : ℕ) (n : Node F) (ps : List GraphPipeline) (qs : List (GraphVisitState F))
            → Passes i n ps qs (body i n ps qs))
        → (i : ℕ) (ns : List (Node F)) (ps : List GraphPipeline) (qs : List (GraphVisitState F))
        → PassesAll i ns ps qs (scan body i ns ps qs)
    unfolding scan
    scan-Passes body pass i [] ps qs = (Extends-refl ps qs, λ k n h. absurd (cc))
    scan-Passes body pass i (n ∷ ns) ps qs =
        (elim (body i n ps qs)
            as (λ f.
              Passes i n ps qs f
              → PassesAll i (n ∷ ns) ps qs
                  (elim f [ found p ↦ found p | running ps' qs' ↦ scan body (suc i) ns ps' qs' ])) [
                    | found p ↦ λ h. tt
                    | running ps' qs' ↦ λ h.
                        PassesAll-cons i n ns ps qs ps' qs' _ h
                          (scan-Passes body pass (suc i) ns ps' qs')
                  ])
          (pass i n ps qs)
