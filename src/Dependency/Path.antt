-- ===== src/Dependency/Path.antt =====
-- What a pipeline of the dependency graph is, and the positions of the nodes that a loop visits.
use native.Mathlib.Nat.{zero-add, add-zero, suc-add, add-suc}
use open_ark.Prelude.{
  ℕ, suc, ◌+◌, ◌≡◌, true, false, some, List, [], ◌∷◌, ◌++◌, PartialEq, nat_eq, contains, get_elem?,
}
use open_ark.Dependency.{Node, GraphPipeline, GraphPipelineClaim, contains_all}

module _ {F : Type 0} ⦃e : PartialEq F⦄ (nodes : List (Node F)) (claim : GraphPipelineClaim F) where
  -- `Leads p fs`: the nodes of `p`, all different, can be called in turn from the source's
  -- features, each with its requirements met, and make the features `fs`.
  pub data Leads : GraphPipeline → List F → Type 0 where
    first :
        (i : ℕ) {n : Node F}
        → get_elem? nodes i ≡ some n
        → contains_all claim.src n.requirements ≡ true
        → Leads (i ∷ []) (claim.src ++ n.provided)
    then_call :
        {p : GraphPipeline} {fs : List F} (i : ℕ) {n : Node F}
        → Leads p fs
        → get_elem? nodes i ≡ some n
        → contains p i ≡ false
        → contains_all fs n.requirements ≡ true
        → Leads (p ++ i ∷ []) (fs ++ n.provided)

  -- A pipeline of the claim: it leads to features that hold the sink's.
  pub record IsPipeline (p : GraphPipeline) : Type 0 where
    pub features : List F
    pub leads : Leads p features
    pub reaches : contains_all features claim.sink ≡ true

-- `ns` are the nodes from the index `i` on.
abbrev pub IsFrom : {F : Type 0} → List (Node F) → ℕ → List (Node F) → Type 0
IsFrom nodes i ns = (k : ℕ) → get_elem? nodes (i + k) ≡ get_elem? ns k

pub IsFrom-zero : {F : Type 0} (nodes : List (Node F)) → IsFrom nodes 0 nodes
IsFrom-zero nodes k = rw zero-add

module _ {F : Type 0} (nodes : List (Node F)) (i : ℕ) (n : Node F) (ns : List (Node F)) where
  pub IsFrom-head : IsFrom nodes i (n ∷ ns) → get_elem? nodes i ≡ some n
  IsFrom-head from = rw add-zero at (from 0)

  pub IsFrom-tail : IsFrom nodes i (n ∷ ns) → IsFrom nodes (suc i) ns
  IsFrom-tail from k = rw suc-add (rw add-suc at (from (suc k)))
