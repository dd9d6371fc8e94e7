-- ===== src/Types/Lineage/Graph.antt =====
-- What the lineage graph answers after it has been written.
use bullet_git.Prelude.{
  ◌≡◌, refl, none, some, [], ◌∷◌, ◌++◌, Text, ◌==◌, text_eq, if◌then◌else◌, ok, err, List, arith,
  Option-cases, inl, inr,
}
use bullet_git.Types.Lineage.{
  Change, EvolutionEdge, ChangeEvolution, LineageGraph, find, record_change, push_edge, record_edge,
  query,
}

find-append :
    (id : Text) (graph : LineageGraph) (change : Change)
    → find id (graph ++ record { change = change; edges = [] } ∷ []) ≡ elim (find id graph) [
      | some row ↦ some row
      | none ↦ if change.id == id then some (record { change = change; edges = [] }) else none
    ]
unfolding find
find-append id [] change = refl
find-append id (row ∷ rows) change = ground (arith, find-append id rows change)

find_id :
    (id : Text) (graph : LineageGraph) (row : ChangeEvolution)
    → find id graph ≡ some row
    → row.change.id ≡ id
unfolding find
find_id id [] row h = cc
find_id id (r ∷ rows) row h = ground (arith, find_id id rows row)

-- The edges that a graph has at a change: none for a change that is not there.
pub edges_at : LineageGraph → Text → List EvolutionEdge
unfolding query
edges_at graph id = elim (query graph id) [ err _ ↦ [] | ok row ↦ row.edges ]

-- When a change is recorded, its id answers with exactly that change and with the edges that it had,
-- none if it is new; what every other id answers is as before.
pub record_change-query :
    (graph : LineageGraph) (change : Change)
    → (record_change graph change).0 ≡ ok tt
    → let graph' = (record_change graph change).1 in
      ((row : ChangeEvolution) × (query graph' change.id ≡ ok row)
        × (row.change ≡ change)
        × (row.edges ≡ edges_at graph change.id))
      × ((id : Text)
          → query graph' id ≡ (if change.id == id then query graph' change.id else query graph id))
unfolding record_change query edges_at
record_change-query graph change recorded = elim (Option-cases (find change.id graph)) [
  | inl absent ↦ (
    (
      record { change = change; edges = [] },
      ground (arith, find-append change.id graph change),
      refl,
      ground arith,
    ),
    λ id. ground (arith, find-append id graph change, find-append change.id graph change),
  )
  | inr (row, there) ↦ ((row, ground arith, ground arith, ground arith), λ id. ground arith)
]

-- The row that `push_edge` finds, and what it leaves for every id.
find-push_edge :
    (id j : Text) (edge : EvolutionEdge) (graph graph' : LineageGraph)
    → push_edge id edge graph ≡ some graph'
    → find j graph' ≡ elim (find j graph) [
      | none ↦ none
      | some row ↦
          if j == id then some (record row { edges = row.edges ++ edge ∷ [] }) else some row
    ]
unfolding find push_edge
find-push_edge id j edge [] graph' h = cc
find-push_edge id j edge (row ∷ rows) graph' h = elim (Option-cases (push_edge id edge rows)) [
  | inl e ↦ ground arith
  | inr (rows', e) ↦ ground (arith, find-push_edge id j edge rows rows' e)
]

push_edge-none :
    (id : Text) (edge : EvolutionEdge) (graph : LineageGraph)
    → find id graph ≡ none
    → push_edge id edge graph ≡ none
unfolding find push_edge
push_edge-none id edge [] h = refl
push_edge-none id edge (row ∷ rows) h = ground (arith, push_edge-none id edge rows)

push_edge-some :
    (id : Text) (edge : EvolutionEdge) (graph : LineageGraph) (row : ChangeEvolution)
    → find id graph ≡ some row
    → (graph' : LineageGraph) × (push_edge id edge graph ≡ some graph')
unfolding find push_edge
push_edge-some id edge [] row h = cc
push_edge-some id edge (r ∷ rows) row h = elim (Option-cases (push_edge id edge rows)) [
  | inl e ↦ (
    record r { edges = r.edges ++ edge ∷ [] } ∷ rows,
    ground (arith, push_edge-some id edge rows row),
  )
  | inr (rows', e) ↦ (
    if r.change.id == id then record r { edges = r.edges ++ edge ∷ [] } ∷ rows else r ∷ rows',
    ground arith,
  )
]

-- An edge recorded at a change that is there is appended to the edges of that change, which stays;
-- what every other id answers is as before.
pub record_edge-query :
    (graph : LineageGraph) (id : Text) (edge : EvolutionEdge) (row : ChangeEvolution)
    → find id graph ≡ some row
    → let done = record_edge graph id edge in
      (done.0 ≡ ok tt)
      × ((j : Text)
          → query done.1 j ≡ (
              if j == id
              then ok (record row { edges = row.edges ++ edge ∷ [] })
              else query graph j))
unfolding record_edge query
record_edge-query graph id edge row there =
    let (graph', pushed) = push_edge-some id edge graph row there in
    (ground arith, λ j. ground (arith, find-push_edge id j edge graph graph' pushed))
