-- ===== src/Gitd/Memory.antt =====
-- crates/bullet-gitd/src/lib.rs: `MemoryRepository`. A method on `&mut self` is an action on the
-- repository's state.
pub mod Files
pub mod Atomic
use bullet_git.Prelude.{
  ℕ, Bool, true, false, not, ◌||◌, Option, none, some, List, [], ◌∷◌, ◌++◌, map, Bytes, Text, codes,
  any, ◌==◌, text_eq, if◌then◌else◌, Result, ok, err, map_err, refuse_if, ◌>>=◌, ◌>>◌,
}
use bullet_git.Types.Digest.{Hashing, Digest, digest_of}
use bullet_git.Types.Authority
use bullet_git.Types.Authority.{
  AuthorityEnvelope, WireAuthorityToken, TokenDecoder, ExpectedAuthority,
}
use bullet_git.Types.RepoPath.{Unicode}
use bullet_git.Types.Proposal
use bullet_git.Types.Proposal.{
  PatchProposal, PatchOperation, PatchMutation, Preimage, absent, digest,
}
use bullet_git.Types.Lineage
use bullet_git.Types.Lineage.{Change, EvolutionEdge, ChangeEvolution, LineageGraph}
use bullet_git.Journal
use bullet_git.Journal.{Checkpoint, record_write, record_delete, checkpoint}
use bullet_git.Workspace.Error.{
  CapabilityError, from_authority, worktree_forbidden, proposal_attempt_mismatch, stale_checkpoint,
  stale_preimage, proposal, lineage,
}
use bullet_git.Workspace.Scope.{ScopeGrant}
use bullet_git.Workspace.Patch.{PatchHunk, PatchOp, write, delete, validate_batch}

abbrev pub Files : Type 0
Files = List (Text × Bytes)

pub record MemoryRepository : Type 0 where
  pub files : Files
  pub journal : Journal.Journal
  pub expected : ExpectedAuthority
  pub grant : ScopeGrant
  pub base : Text
  pub is_worktree : Bool
  pub lineage : LineageGraph

-- `files.iter().find(|(p, _)| p == path)`
unfoldable pub find : Text → Files → Option Bytes
find path [] = none
find path ((p, bytes) ∷ rest) = if p == path then some bytes else find path rest

unfoldable pub exists : Files → Text → Bool
exists files path = any (λ p. p == path) (map (λ f. f.0) files)

-- The contents of the first file of that path replaced, or the file pushed.
unfoldable pub write_file : Text → Bytes → Files → Files
write_file path contents [] = (path, contents) ∷ []
write_file path contents ((p, bytes) ∷ rest) =
    if p == path then (p, contents) ∷ rest else (p, bytes) ∷ write_file path contents rest

-- `files.remove(pos)` at the first file of that path.
unfoldable pub remove_file : Text → Files → Files
remove_file path [] = []
remove_file path ((p, bytes) ∷ rest) =
    if p == path then rest else (p, bytes) ∷ remove_file path rest

-- The hunk that `apply_proposal` makes of an operation.
unfoldable pub hunk_of : PatchOperation → PatchHunk
hunk_of operation = record {
  path = operation.path;
  op = elim operation.mutation [
    | PatchMutation.write content_utf8 ↦ write content_utf8
    | PatchMutation.delete ↦ delete
  ];
}

module _ (h : Hashing) where
  -- One round of the loop of `apply_change`, on the files and the journal.
  unfoldable pub apply_op : PatchOp → Text → Files × Journal.Journal → Files × Journal.Journal
  unfolding write_file remove_file find
  apply_op (write contents) path (files, journal) =
      (write_file path contents files, record_write h path contents journal)
  apply_op delete path (files, journal) = elim (find path files) [
    | none ↦ (files, journal)
    | some before ↦ (remove_file path files, record_delete h path before journal)
  ]

  -- The loop over the patches zipped with their normalized paths.
  unfoldable pub apply_all :
      List PatchHunk → List Text → Files × Journal.Journal → Files × Journal.Journal
  unfolding apply_op
  apply_all [] paths s = s
  apply_all (patch ∷ patches) [] s = s
  apply_all (patch ∷ patches) (path ∷ paths) s = apply_all patches paths (apply_op patch.op path s)

  unfoldable pub matches : Preimage → Option Bytes → Bool
  matches absent none = true
  matches absent (some bytes) = false
  matches (digest d) none = false
  matches (digest d) (some bytes) = digest_of h bytes == d

  unfoldable pub check_preimages :
      Files → List PatchOperation → List Text → Result CapabilityError (Unit {0})
  unfolding matches find
  check_preimages files [] paths = ok tt
  check_preimages files (operation ∷ operations) [] = ok tt
  check_preimages files (operation ∷ operations) (path ∷ paths) = do
    refuse_if (not (matches operation.preimage (find path files))) (stale_preimage path)
    check_preimages files operations paths

module _ (u : Unicode) (h : Hashing) (from_slice : TokenDecoder) where
  unfoldable pub require :
      MemoryRepository → AuthorityEnvelope → Result CapabilityError WireAuthorityToken
  require r auth = map_err from_authority (Authority.require from_slice r.expected auth)

  unfoldable pub read_tree :
      MemoryRepository → AuthorityEnvelope → Result CapabilityError (List Text)
  unfolding require
  read_tree r auth = do require r auth; ok (map (λ f. f.0) r.files)

  -- What `apply_change` checks before its loop: the normalized paths.
  unfoldable pub admit_change :
      MemoryRepository → AuthorityEnvelope → List PatchHunk → Result CapabilityError (List Text)
  unfolding require exists
  admit_change r auth patches = do
    require r auth
    refuse_if r.is_worktree (worktree_forbidden (codes "memory"))
    validate_batch u r.grant patches (exists r.files)

  unfoldable pub apply_change :
      MemoryRepository
      → AuthorityEnvelope
      → List PatchHunk
      → Result CapabilityError (Unit {0}) × MemoryRepository
  unfolding admit_change apply_all
  apply_change r auth patches = elim (admit_change r auth patches) [
    | err e ↦ (err e, r)
    | ok normalized ↦
        let (files, journal) = apply_all h patches normalized (r.files, r.journal) in
        (ok tt, record r { files = files; journal = journal })
  ]

  unfoldable pub validate_proposal :
      MemoryRepository → AuthorityEnvelope → PatchProposal → Result CapabilityError (Unit {0})
  unfolding require hunk_of check_preimages exists
  validate_proposal r auth p = do
    require r auth
    refuse_if r.is_worktree (worktree_forbidden (codes "memory"))
    map_err proposal (Proposal.validate u p)
    refuse_if (not (p.producing_attempt_id == r.expected.attempt_id))
        (proposal_attempt_mismatch r.expected.attempt_id p.producing_attempt_id)
    let active = checkpoint h r.journal
    refuse_if
        (not (p.base_checkpoint_id == active.id) || not (p.base_checkpoint_digest == active.digest))
        stale_checkpoint
    normalized ← validate_batch u r.grant (map hunk_of p.operations) (exists r.files)
    check_preimages h r.files p.operations normalized

  -- What `apply_proposal` checks before it applies its patches: its own copy of the checks.
  unfoldable pub admit_proposal :
      MemoryRepository → AuthorityEnvelope → PatchProposal → Result CapabilityError (Unit {0})
  unfolding require hunk_of check_preimages exists
  admit_proposal r auth p = do
    require r auth
    refuse_if r.is_worktree (worktree_forbidden (codes "memory"))
    map_err proposal (Proposal.validate u p)
    refuse_if (not (p.producing_attempt_id == r.expected.attempt_id))
        (proposal_attempt_mismatch r.expected.attempt_id p.producing_attempt_id)
    let active = checkpoint h r.journal
    refuse_if
        (not (p.base_checkpoint_id == active.id) || not (p.base_checkpoint_digest == active.digest))
        stale_checkpoint
    normalized ← validate_batch u r.grant (map hunk_of p.operations) (exists r.files)
    check_preimages h r.files p.operations normalized

  unfoldable pub apply_proposal :
      MemoryRepository
      → AuthorityEnvelope
      → PatchProposal
      → Result CapabilityError Checkpoint × MemoryRepository
  unfolding admit_proposal apply_change hunk_of
  apply_proposal r auth p = elim (admit_proposal r auth p) [
    | err e ↦ (err e, r)
    | ok _ ↦
        let (applied, r') = apply_change r auth (map hunk_of p.operations) in
        (elim applied [ err e ↦ err e | ok _ ↦ ok (checkpoint h r'.journal) ], r')
  ]

  unfoldable pub take_checkpoint :
      MemoryRepository → AuthorityEnvelope → Result CapabilityError Checkpoint
  unfolding require
  take_checkpoint r auth = do require r auth; ok (checkpoint h r.journal)

  unfoldable pub query_lineage :
      MemoryRepository → AuthorityEnvelope → Text → Result CapabilityError ChangeEvolution
  unfolding require
  query_lineage r auth change_id = do
    require r auth
    map_err lineage (Lineage.query r.lineage change_id)

  -- Both writes of `record_evolution`, once the token is checked.
  unfoldable pub write_evolution :
      LineageGraph → Change → EvolutionEdge → Result CapabilityError (Unit {0}) × LineageGraph
  write_evolution graph change edge =
      let (recorded, graph') = Lineage.record_change graph change in
      elim recorded [
        | err e ↦ (err (lineage e), graph')
        | ok _ ↦
            let (appended, graph'') = Lineage.record_edge graph' change.id edge in
            (map_err lineage appended, graph'')
      ]

  unfoldable pub record_evolution :
      MemoryRepository
      → AuthorityEnvelope
      → Change
      → EvolutionEdge
      → Result CapabilityError (Unit {0}) × MemoryRepository
  unfolding require write_evolution
  record_evolution r auth change edge = elim (require r auth) [
    | err e ↦ (err e, r)
    | ok _ ↦
        let (answer, graph) = write_evolution r.lineage change edge in
        (answer, record r { lineage = graph })
  ]
