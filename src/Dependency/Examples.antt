-- ===== src/Dependency/Examples.antt =====
-- The search on four nodes: runs, and the theorems at them. Features are numbers.
use open_ark.Prelude.{
  ℕ, ◌≤◌, ◌≡◌, ◌≢◌, refl, true, false, inl, inr, none, some, List, [], ◌∷◌, nat_eq, length, All,
}
use open_ark.Dependency.{
  Node, GraphPipeline, GraphPipelineClaim, done, out_of_fuel, contains_all, room, scan, start_node,
  visit_node, search, build_pipeline,
}
use open_ark.Dependency.Path.{IsPipeline}
use open_ark.Dependency.Sound.{build_pipeline_sound, IsWithin, build_pipeline_depth}
use open_ark.Dependency.Complete.{IsRoute, build_pipeline_complete}
use open_ark.Dependency.Shortest.{build_pipeline_shortest}
use open_ark.Dependency.Ends.{build_pipeline_ends}

abbrev parse : Node ℕ
parse = record { is_final = false; provided = 1 ∷ []; requirements = 0 ∷ [] }

abbrev rank : Node ℕ
rank = record { is_final = false; provided = 2 ∷ []; requirements = 1 ∷ [] }

abbrev store : Node ℕ
store = record { is_final = true; provided = 5 ∷ []; requirements = 0 ∷ [] }

abbrev publish : Node ℕ
publish = record { is_final = false; provided = 3 ∷ []; requirements = 2 ∷ 1 ∷ [] }

abbrev functions : List (Node ℕ)
functions = parse ∷ rank ∷ store ∷ publish ∷ []

abbrev ask : List ℕ → GraphPipelineClaim ℕ
ask sink = record {
  option = record { fastest = true; max_depth = none };
  src = 0 ∷ [];
  sink = sink;
}

abbrev shallow : GraphPipelineClaim ℕ
shallow = record {
  option = record { fastest = false; max_depth = some 1 };
  src = 0 ∷ [];
  sink = 2 ∷ [];
}

finds_rank : build_pipeline functions (ask (2 ∷ [])) ≡ done (some ((0 ∷ 1 ∷ []) ∷ []))
unfolding build_pipeline search scan start_node visit_node contains_all room
finds_rank = refl

finds_publish : build_pipeline functions (ask (3 ∷ [])) ≡ done (some ((0 ∷ 1 ∷ 3 ∷ []) ∷ []))
unfolding build_pipeline search scan start_node visit_node contains_all room
finds_publish = refl

finds_nothing : build_pipeline functions (ask (9 ∷ [])) ≡ done none
unfolding build_pipeline search scan start_node visit_node contains_all room
finds_nothing = refl

-- With `max_depth` 1 a pipeline of two nodes is found.
finds_too_deep : build_pipeline functions shallow ≡ done (some ((0 ∷ 1 ∷ []) ∷ []))
unfolding build_pipeline search scan start_node visit_node contains_all room
finds_too_deep = refl

rank-IsRoute : IsRoute functions (ask (2 ∷ [])) (0 ∷ 1 ∷ [])
unfolding contains_all
rank-IsRoute = (parse, refl, refl, inr (rank, refl, refl, refl, inl (refl, refl)))

build_pipeline_sound_example : All (IsPipeline functions (ask (3 ∷ []))) ((0 ∷ 1 ∷ 3 ∷ []) ∷ [])
build_pipeline_sound_example =
    build_pipeline_sound functions (ask (3 ∷ [])) ((0 ∷ 1 ∷ 3 ∷ []) ∷ []) finds_publish

build_pipeline_depth_example : All (IsWithin functions shallow 1) ((0 ∷ 1 ∷ []) ∷ [])
build_pipeline_depth_example =
    build_pipeline_depth functions shallow 1 refl ((0 ∷ 1 ∷ []) ∷ []) finds_too_deep

build_pipeline_complete_example : ¬ (IsRoute functions (ask (9 ∷ [])) (0 ∷ 1 ∷ 3 ∷ []))
build_pipeline_complete_example =
    build_pipeline_complete functions (ask (9 ∷ [])) finds_nothing (0 ∷ 1 ∷ 3 ∷ [])

build_pipeline_shortest_example : All (λ (p : GraphPipeline). length p ≤ 2) ((0 ∷ 1 ∷ []) ∷ [])
build_pipeline_shortest_example =
    build_pipeline_shortest functions (ask (2 ∷ [])) refl ((0 ∷ 1 ∷ []) ∷ []) (0 ∷ 1 ∷ [])
      finds_rank rank-IsRoute

build_pipeline_ends_example : build_pipeline functions (ask (2 ∷ [])) ≢ out_of_fuel
build_pipeline_ends_example = build_pipeline_ends functions (ask (2 ∷ []))
