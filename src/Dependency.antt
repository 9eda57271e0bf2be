-- ===== src/Dependency.antt =====
-- The dependency graph of kubegraph, crates/kubegraph/dependency/graph/src/lib.rs: `Graph`, its
-- nodes, and the breadth-first search `Graph::build_pipeline` for chains of functions that turn
-- the features of a source into those of a sink.
--
-- A reference `&N` into `Graph::nodes` is the index of the node, so a pipeline is a list of
-- indices. A `BTreeSet` of features is the list of what was put in: the code asks it for
-- membership only. `max_depth` is a `usize` that is compared and never computed with.
pub mod Path
pub mod Scan
pub mod Sound
pub mod Passes
pub mod Complete
pub mod Shortest
pub mod Ends
pub mod Examples
use open_ark.Prelude.{
  ℕ, zero, suc, ◌+◌, ◌*◌, Bool, true, false, not, ◌&&◌, ◌||◌, Option, none, some, List, [], ◌∷◌,
  ◌++◌, PartialEq, nat_eq, contains, is_empty, length, leb, if◌then◌else◌,
}

-- The trait `Node`, as the values that its methods return.
pub record Node (F : Type 0) : Type 0 where
  pub is_final : Bool
  pub provided : List F
  pub requirements : List F

pub record GraphPipelineClaimOptions : Type 0 where
  pub fastest : Bool
  pub max_depth : Option ℕ

pub record GraphPipelineClaim (F : Type 0) : Type 0 where
  pub option : GraphPipelineClaimOptions
  pub src : List F
  pub sink : List F

abbrev pub GraphPipeline : Type 0
GraphPipeline = List ℕ

pub record GraphVisitState (F : Type 0) : Type 0 where
  pub features : List F
  pub travelled : List ℕ

-- Where a loop over the nodes stands: `found` is `return Some(vec![pipeline])`, `running` holds
-- the pipelines registered so far and the queue.
pub data Flow (F : Type 0) : Type 0 where
  found : GraphPipeline → Flow F
  running : List GraphPipeline → List (GraphVisitState F) → Flow F

-- What the search returns; `out_of_fuel` is no value of the code, and `Ends` rules it out.
pub data Outcome : Type 0 where
  done : Option (List GraphPipeline) → Outcome
  out_of_fuel : Outcome

-- `GraphPipelineClaimOptions::default`
pub default_options : GraphPipelineClaimOptions
default_options = record { fastest = true; max_depth = none }

-- `if pipelines.is_empty() { None } else { Some(pipelines) }`
abbrev pub non_empty : List GraphPipeline → Option (List GraphPipeline)
non_empty [] = none
non_empty (p ∷ ps) = some (p ∷ ps)

-- `if let Some(max_depth) = *max_depth { if max_depth <= travelled.len() + 1 { continue; } }`
abbrev pub too_deep : Option ℕ → List ℕ → Bool
too_deep none travelled = false
too_deep (some depth) travelled = leb depth (length travelled + 1)

-- The searches that start with `m` nodes left to visit, counted: no path visits a node twice.
pub room : ℕ → ℕ
room zero = 1
room (suc m) = 1 + suc m * room m

-- `for (sink_index, sink) in self.nodes.iter().enumerate()`, from the index `i` on
pub scan :
    {F : Type 0}
    → (ℕ → Node F → List GraphPipeline → List (GraphVisitState F) → Flow F)
    → ℕ
    → List (Node F)
    → List GraphPipeline
    → List (GraphVisitState F)
    → Flow F
scan body i [] ps qs = running ps qs
scan body i (n ∷ ns) ps qs = elim (body i n ps qs) [
  | found p ↦ found p
  | running ps' qs' ↦ scan body (suc i) ns ps' qs'
]

-- The state that the second loop queues.
abbrev pub next_state : {F : Type 0} → GraphVisitState F → ℕ → Node F → GraphVisitState F
next_state s i n = record { features = s.features ++ n.provided; travelled = s.travelled ++ i ∷ [] }

module _ {F : Type 0} ⦃e : PartialEq F⦄ where
  -- `ContainsAll::contains_all`
  unfoldable pub contains_all : List F → List F → Bool
  contains_all set [] = true
  contains_all set (r ∷ rs) = contains set r && contains_all set rs

  module _ (claim : GraphPipelineClaim F) where
    -- Register an output pipeline.
    abbrev pub register : GraphPipeline → List GraphPipeline → List (GraphVisitState F) → Flow F
    register p ps qs = if claim.option.fastest then found p else running (ps ++ p ∷ []) qs

    -- The state that the first loop queues.
    abbrev pub first_state : ℕ → Node F → GraphVisitState F
    first_state i n = record { features = claim.src ++ n.provided; travelled = i ∷ [] }

    -- The pre-constraints of the first loop, failed.
    abbrev pub is_unmet : Node F → Bool
    is_unmet n = not (contains_all claim.src n.requirements)

    -- The pre-constraints of the second loop, failed.
    abbrev pub is_skipped : GraphVisitState F → ℕ → Node F → Bool
    is_skipped s i n = contains s.travelled i || not (contains_all s.features n.requirements)

    -- The post-constraints of the second loop, failed.
    abbrev pub is_cut : GraphVisitState F → Node F → Bool
    is_cut s n = too_deep claim.option.max_depth s.travelled || n.is_final

    -- The body of the first loop over the nodes.
    pub start_node : ℕ → Node F → List GraphPipeline → List (GraphVisitState F) → Flow F
    start_node i n ps qs =
        if is_unmet n
        then running ps qs
        else (if contains_all (claim.src ++ n.provided) claim.sink
            then register (i ∷ []) ps qs
            else running ps (qs ++ first_state i n ∷ []))

    -- The body of the loop over the nodes inside the `while let`, for the state in front.
    pub visit_node :
        GraphVisitState F → ℕ → Node F → List GraphPipeline → List (GraphVisitState F) → Flow F
    visit_node s i n ps qs =
        if is_skipped s i n
        then running ps qs
        else (if contains_all (s.features ++ n.provided) claim.sink
            then register (s.travelled ++ i ∷ []) ps qs
            else (if is_cut s n then running ps qs else running ps (qs ++ next_state s i n ∷ [])))

  module _ (nodes : List (Node F)) (claim : GraphPipelineClaim F) where
    -- The `while let` over the queue.
    pub search : ℕ → List GraphPipeline → List (GraphVisitState F) → Outcome
    search fuel ps [] = done (non_empty ps)
    search zero ps (s ∷ qs) = out_of_fuel
    search (suc fuel) ps (s ∷ qs) = elim (scan (visit_node claim s) 0 nodes ps qs) [
      | found p ↦ done (some (p ∷ []))
      | running ps' qs' ↦ search fuel ps' qs'
    ]

    -- After the first loop the `while let` starts; the fuel is enough, see `Ends`.
    unfoldable pub build_pipeline : Outcome
    build_pipeline =
        if is_empty claim.sink || contains_all claim.src claim.sink
        then done (some [])
        else (elim (scan (start_node claim) 0 nodes [] []) [
          | found p ↦ done (some (p ∷ []))
          | running ps qs ↦ search (length nodes * room (length nodes)) ps qs
        ])
