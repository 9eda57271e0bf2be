-- ===== src/Dependency/Scan.antt =====
-- A rule for the loops of `build_pipeline`: what the bodies keep of every registered pipeline and
-- of every queued state holds of what the search returns.
use open_ark.Prelude.{
  if_rule, All-append, ℕ, zero, suc, ◌*◌, ◌≡◌, ◌||◌, none, some, List, [], ◌∷◌, PartialEq, nat_eq,
  is_empty, get_elem?, length, All,
}
use open_ark.Dependency.{
  register, Node, GraphPipeline, GraphPipelineClaim, GraphVisitState, Flow, found, running, Outcome,
  done, out_of_fuel, non_empty, room, contains_all, start_node, visit_node, scan, search,
  build_pipeline,
}
use open_ark.Dependency.Path.{IsFrom, IsFrom-zero, IsFrom-head, IsFrom-tail}

abbrev pub Body : Type 0 → Type 0
Body F = ℕ → Node F → List GraphPipeline → List (GraphVisitState F) → Flow F

-- `Good` holds of the pipelines and the queue wherever the loop stands, `PipeOk` of a pipeline that
-- it returns.
module _ {F : Type 0} (PipeOk : GraphPipeline → Type 0)
    (Good : List GraphPipeline → List (GraphVisitState F) → Type 0) where
  abbrev pub FlowInv : Flow F → Type 0
  FlowInv (found p) = PipeOk p
  FlowInv (running ps qs) = Good ps qs

  pub scan_inv :
      (nodes : List (Node F)) (body : Body F)
      → ((i : ℕ) (n : Node F) (ps : List GraphPipeline) (qs : List (GraphVisitState F))
          → get_elem? nodes i ≡ some n
          → Good ps qs
          → FlowInv (body i n ps qs))
      → (i : ℕ) (ns : List (Node F)) (ps : List GraphPipeline) (qs : List (GraphVisitState F))
      → IsFrom nodes i ns
      → Good ps qs
      → FlowInv (scan body i ns ps qs)
  unfolding scan
  scan_inv nodes body keeps i [] ps qs from h = h
  scan_inv nodes body keeps i (n ∷ ns) ps qs from h =
      (elim (body i n ps qs)
          as (λ f.
            FlowInv f
            → FlowInv
                (elim f [ found p ↦ found p | running ps' qs' ↦ scan body (suc i) ns ps' qs' ])) [
                  | found p ↦ λ g. g
                  | running ps' qs' ↦ λ g.
                      scan_inv nodes body keeps (suc i) ns ps' qs' (IsFrom-tail nodes i n ns from) g
                ])
        (keeps i n ps qs (IsFrom-head nodes i n ns from) h)

-- The search goes on from a loop over the nodes, or returns what the loop found.
pub flow_rule :
    {F : Type 0} (P : Flow F → Type 0) (Q : Outcome → Type 0)
    (next : List GraphPipeline → List (GraphVisitState F) → Outcome)
    → ((p : GraphPipeline) → P (found p) → Q (done (some (p ∷ []))))
    → ((ps : List GraphPipeline) (qs : List (GraphVisitState F))
        → P (running ps qs)
        → Q (next ps qs))
    → (f : Flow F) → P f
    → Q (elim f [ found p ↦ done (some (p ∷ [])) | running ps qs ↦ next ps qs ])
flow_rule P Q next returned going (found p) h = returned p h
flow_rule P Q next returned going (running ps qs) h = going ps qs h

-- Every returned pipeline is fine.
abbrev pub OutcomeOk : (GraphPipeline → Type 0) → Outcome → Type 0
OutcomeOk PipeOk (done none) = Unit
OutcomeOk PipeOk (done (some ps)) = All PipeOk ps
OutcomeOk PipeOk out_of_fuel = Unit

pub OutcomeOk-non_empty :
    (PipeOk : GraphPipeline → Type 0) (ps : List GraphPipeline)
    → All PipeOk ps
    → OutcomeOk PipeOk (done (non_empty ps))
OutcomeOk-non_empty PipeOk [] h = tt
OutcomeOk-non_empty PipeOk (p ∷ ps) h = h

-- The same for what is asked of each pipeline and of each queued state.
module _ {F : Type 0} (PipeOk : GraphPipeline → Type 0) (StateOk : GraphVisitState F → Type 0) where
  abbrev pub FlowOk : Flow F → Type 0
  FlowOk = FlowInv PipeOk (λ ps qs. All PipeOk ps × All StateOk qs)

  -- A body keeps what is wanted at each node of the graph.
  abbrev pub Keeps : List (Node F) → Body F → Type 0
  Keeps nodes body =
      (i : ℕ) (n : Node F) (ps : List GraphPipeline) (qs : List (GraphVisitState F))
      → get_elem? nodes i ≡ some n
      → All PipeOk ps
      → All StateOk qs
      → FlowOk (body i n ps qs)

  pub scan_rule :
      (nodes : List (Node F)) (body : Body F) (keeps : Keeps nodes body) (ps : List GraphPipeline)
      (qs : List (GraphVisitState F))
      → All PipeOk ps
      → All StateOk qs
      → FlowOk (scan body 0 nodes ps qs)
  scan_rule nodes body keeps ps qs hp hq =
      scan_inv PipeOk (λ ps qs. All PipeOk ps × All StateOk qs) nodes body
        (λ i n ps qs at h. keeps i n ps qs at h.0 h.1) 0 nodes ps qs (IsFrom-zero nodes) (hp, hq)

-- A registered pipeline is returned at once, or kept with the others.
pub register_rule :
    {F : Type 0} ⦃e : PartialEq F⦄ (claim : GraphPipelineClaim F) (PipeOk : GraphPipeline → Type 0)
    (StateOk : GraphVisitState F → Type 0) (p : GraphPipeline) (ps : List GraphPipeline)
    (qs : List (GraphVisitState F))
    → PipeOk p
    → All PipeOk ps
    → All StateOk qs
    → FlowOk PipeOk StateOk (register claim p ps qs)
register_rule claim PipeOk StateOk p ps qs h hp hq =
    if_rule (FlowOk PipeOk StateOk) claim.option.fastest (λ fast. h)
      (λ slow. (All-append PipeOk ps _ hp (h, tt), hq))

module _ {F : Type 0} ⦃e : PartialEq F⦄ (nodes : List (Node F)) (claim : GraphPipelineClaim F)
    (PipeOk : GraphPipeline → Type 0) (StateOk : GraphVisitState F → Type 0)
    (starts : Keeps PipeOk StateOk nodes (start_node claim))
    (visits : (s : GraphVisitState F)
      → StateOk s
      → Keeps PipeOk StateOk nodes (visit_node claim s)) where
  pub search_rule :
      (fuel : ℕ) (ps : List GraphPipeline) (qs : List (GraphVisitState F))
      → All PipeOk ps
      → All StateOk qs
      → OutcomeOk PipeOk (search nodes claim fuel ps qs)
  unfolding search
  search_rule fuel ps [] hp hq = OutcomeOk-non_empty PipeOk ps hp
  search_rule zero ps (s ∷ qs) hp hq = tt
  search_rule (suc fuel) ps (s ∷ qs) hp hq =
      flow_rule (FlowOk PipeOk StateOk) (OutcomeOk PipeOk) (search nodes claim fuel)
        (λ p h. (h, tt)) (λ ps' qs' h. search_rule fuel ps' qs' h.0 h.1)
        (scan (visit_node claim s) 0 nodes ps qs)
        (scan_rule PipeOk StateOk nodes (visit_node claim s) (visits s hq.0) ps qs hp hq.1)

  pub build_pipeline_rule : OutcomeOk PipeOk (build_pipeline nodes claim)
  unfolding build_pipeline
  build_pipeline_rule =
      if_rule (OutcomeOk PipeOk) (is_empty claim.sink || contains_all claim.src claim.sink)
        (λ trivial. tt)
        (λ _.
          flow_rule (FlowOk PipeOk StateOk) (OutcomeOk PipeOk)
            (search nodes claim (length nodes * room (length nodes))) (λ p h. (h, tt))
            (λ ps qs h. search_rule _ ps qs h.0 h.1) (scan (start_node claim) 0 nodes [] [])
            (scan_rule PipeOk StateOk nodes (start_node claim) starts [] [] tt tt))
