-- ===== src/Types/Lineage.antt =====
-- crates/bullet-git-types/src/lineage.rs, with the evolution edges of
-- crates/bullet-git-types/src/change.rs: the graph of changes and of the edges that rewrote their
-- candidates. `WorkspaceLineage` (crates/bullet-git-workspace/src/lineage.rs) holds one such graph.
pub mod Graph
use bullet_git.Prelude.{
  ℕ, ℕ_discrete, Bool, true, false, not, codes, Option, none, some, List, [], ◌∷◌, ◌++◌, Text, Eq,
  ◌==◌, text_eq, if◌then◌else◌, Result, ok, err,
}
use bullet_git.Types.Digest.{Digest}

pub record Change : Type 0 where
  pub id : Text
  pub mission : Text
  pub acceptance_root : Digest

unfoldable pub change_discrete : Discrete Change
unfolding ℕ_discrete
change_discrete = hlevel ℕ_discrete

instance abbrev pub change_eq : Eq Change
change_eq = record { decide_eq = change_discrete }

pub data EvolutionKind : Type 0 where
  amend repair rebase squash split synthesis cherry_pick merge_composition : EvolutionKind
  generated_refresh : EvolutionKind

unfoldable pub invalidates_evidence : EvolutionKind → Bool
invalidates_evidence rebase = true
invalidates_evidence squash = true
invalidates_evidence split = true
invalidates_evidence merge_composition = true
invalidates_evidence cherry_pick = true
invalidates_evidence _ = false

pub record EvolutionEdge : Type 0 where
  pub from : Text
  pub to : Text
  pub kind : EvolutionKind

pub record ChangeEvolution : Type 0 where
  pub change : Change
  pub edges : List EvolutionEdge

unfoldable pub predecessors_of : List EvolutionEdge → List Text
unfolding invalidates_evidence
predecessors_of [] = []
predecessors_of (edge ∷ edges) =
    let rest = predecessors_of edges in
    if invalidates_evidence edge.kind then edge.from ∷ rest else rest

unfoldable pub invalidated_predecessors : ChangeEvolution → List Text
unfolding predecessors_of
invalidated_predecessors evolution = predecessors_of evolution.edges

pub data LineageError : Type 0 where
  not_found : Text → LineageError
  subject_mismatch : Text → LineageError

unfoldable pub reason_code : LineageError → Text
reason_code (not_found _) = codes "CHANGE_NOT_FOUND"
reason_code (subject_mismatch _) = codes "LINEAGE_SUBJECT_MISMATCH"

-- The `changes` of a `LineageGraph`.
abbrev pub LineageGraph : Type 0
LineageGraph = List ChangeEvolution

-- `changes.iter().find(|row| row.change.id == id)`
unfoldable pub find : Text → LineageGraph → Option ChangeEvolution
find id [] = none
find id (row ∷ rows) = if row.change.id == id then some row else find id rows

-- A method that may refuse returns its result beside the graph that it leaves.
unfoldable pub record_change : LineageGraph → Change → Result LineageError (Unit {0}) × LineageGraph
unfolding find
record_change graph change = elim (find change.id graph) [
  | some existing ↦
      if not (existing.change == change)
      then (err (subject_mismatch change.id), graph)
      else (ok tt, graph)
  | none ↦ (ok tt, graph ++ record { change = change; edges = [] } ∷ [])
]

-- `row.edges.push(edge)` on the first row of that id; `none` if there is none.
unfoldable pub push_edge : Text → EvolutionEdge → LineageGraph → Option LineageGraph
push_edge id edge [] = none
push_edge id edge (row ∷ rows) =
    let rest = push_edge id edge rows in
    if row.change.id == id
    then some (record row { edges = row.edges ++ edge ∷ [] } ∷ rows)
    else elim rest [ none ↦ none | some rows' ↦ some (row ∷ rows') ]

unfoldable pub record_edge :
    LineageGraph → Text → EvolutionEdge → Result LineageError (Unit {0}) × LineageGraph
unfolding push_edge
record_edge graph id edge = elim (push_edge id edge graph) [
  | none ↦ (err (not_found id), graph)
  | some graph' ↦ (ok tt, graph')
]

unfoldable pub query : LineageGraph → Text → Result LineageError ChangeEvolution
unfolding find
query graph id = elim (find id graph) [ none ↦ err (not_found id) | some row ↦ ok row ]
