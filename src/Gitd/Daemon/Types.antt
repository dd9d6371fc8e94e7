-- ===== src/Gitd/Daemon/Types.antt =====
-- crates/bullet-gitd/src/protocol.rs, daemon.rs and daemon/codec.rs: requests, their parameters, the
-- session of a daemon, and what it takes from the repository on disk
-- (crates/bullet-git-workspace/src/repository.rs, clone.rs and preservation.rs) and from `serde_json`.
use bullet_git.Prelude.{
  ℕ, ◌*◌, Bool, Option, none, some, List, [], ◌∷◌, ◌++◌, Bytes, Text, codes, length, ltb, ◌==◌,
  text_eq, if◌then◌else◌, Result, ok, err, ok_or, refuse_if, ◌>>=◌, ◌>>◌,
}
use bullet_git.Types.Digest.{Hashing}
use bullet_git.Types.Authority
use bullet_git.Types.Authority.{AuthorityEnvelope, AuthorityError, ExpectedAuthority}
use bullet_git.Types.Lineage.{Change}
use bullet_git.Types.Proposal.{PatchProposal, max_content_bytes}
use bullet_git.Types.Candidate
use bullet_git.Types.Candidate.{Candidate, CandidateProvenance, CandidateManifestError}
use bullet_git.Types.ProofRoot.{ProofInputs, ProofRoot}
use bullet_git.Journal.{Checkpoint}
use bullet_git.Workspace.Error
use bullet_git.Workspace.Error.{CapabilityError}
use bullet_git.Workspace.Scope.{ScopeGrant}
use bullet_git.Workspace.Patch.{PatchHunk, write, delete}
use bullet_git.Workspace.Generation.Opening.{ActiveGenerationBinding}
use bullet_git.Gitd.Gateway.Types
use bullet_git.Gitd.Gateway.Types.{GatewayError, AuthorityGateway}

-- A stable code and a message.
abbrev pub MethodError : Type 0
MethodError = Text × Text

pub record Request (Value : Type 0) : Type 0 where
  pub id : Value
  pub method : Text
  pub token : Value
  pub params : Value

pub record CloneParams : Type 0 where
  pub source_repo : Text
  pub base_sha : Text
  pub root : Text
  pub created_at : Text
  pub allowed_prefixes : List Text
  pub commit_date : Text

pub record PatchParam : Type 0 where
  pub path : Text
  pub op : Option Text
  pub contents_hex : Option Text

pub record PrepareParams : Type 0 where
  pub change : Change
  pub provenance : CandidateProvenance

-- The leaves are the bytes of `ProofInputParams`.
pub record BindProofParams : Type 0 where
  pub candidate : Candidate
  pub inputs : ProofInputs

pub record VerifyProofParams : Type 0 where
  pub root : ProofRoot
  pub candidate : Candidate
  pub inputs : ProofInputs

pub record CleanupParams : Type 0 where
  pub preservation_receipt : Text
  pub deleted_at : Text

-- `serde_json::from_value` at the types of the parameters; `nonempty_proof_input` is part of it.
pub record ParamCodec (Value : Type 0) : Type 0 where
  pub clone : Value → Option CloneParams
  pub apply : Value → Option (List PatchParam)
  pub proposal : Value → Option PatchProposal
  pub prepare : Value → Option PrepareParams
  pub bind_proof : Value → Option BindProofParams
  pub verify_proof : Value → Option VerifyProofParams
  -- The destination of `PreserveParams`.
  pub preserve : Value → Option Text
  pub cleanup : Value → Option CleanupParams

-- What `json!` and `serde_json::to_value` build.
pub record Encoder (Value : Type 0) : Type 0 where
  pub text : Text → Value
  pub texts : List Text → Value
  pub number : ℕ → Value
  pub boolean : Bool → Value
  pub digest : Bytes → Value
  pub binding : ActiveGenerationBinding → Value
  pub checkpoint : Checkpoint → Option Value
  pub candidate : Candidate → Option Value
  pub proof_root : ProofRoot → Option Value

-- How a token value reads as bytes: `Value::Null`, `Value::String`, or anything else.
pub data TokenShape : Type 0 where
  null other : TokenShape
  string : Text → TokenShape

-- The texts of `Display`, of serde's errors, and of the decimal and debug formats.
pub record Display (Value : Type 0) : Type 0 where
  pub capability : CapabilityError → Text
  pub authority : AuthorityError → Text
  pub gateway : GatewayError → Text
  pub candidate : CandidateManifestError → Text
  pub params : Value → Text
  pub patch : PatchParam → Text
  pub encoding : Text
  pub proof_root : Text

-- `cap`, `auth`, `gateway` and `candidate_manifest`.
module _ {Value : Type 0} (display : Display Value) where
  unfoldable pub cap : CapabilityError → MethodError
  cap e = (Error.reason_code e, display.capability e)

  unfoldable pub auth : AuthorityError → MethodError
  auth e = (Authority.reason_code e, display.authority e)

  unfoldable pub gateway : GatewayError → MethodError
  gateway e = (Types.reason_code e, display.gateway e)

  unfoldable pub candidate_manifest : CandidateManifestError → MethodError
  candidate_manifest e = (Candidate.reason_code e, display.candidate e)

  unfoldable pub parse_params : {P : Type 0} → (Value → Option P) → Value → Result MethodError P
  parse_params decode params =
      ok_or (decode params) (codes "BAD_REQUEST", codes "invalid params: " ++ display.params params)

  unfoldable pub to_value : Option Value → Result MethodError Value
  to_value encoded = ok_or encoded (codes "ENCODING", codes "encode result: " ++ display.encoding)

  -- The messages of `decode_patch` name the path and what serde or hex says.
  unfoldable pub decode_write : Hashing → PatchParam → Result MethodError PatchHunk
  decode_write h patch = do
    hex_text ← ok_or patch.contents_hex (codes "BAD_REQUEST", display.patch patch)
    refuse_if (ltb (max_content_bytes * 2) (length hex_text))
        (codes "CONTENT_TOO_LARGE", display.patch patch)
    contents ← ok_or (h.hex_decode hex_text) (codes "BAD_REQUEST", display.patch patch)
    ok (record { path = patch.path; op = write contents })

  unfoldable pub decode_delete : PatchParam → Result MethodError PatchHunk
  decode_delete patch = elim patch.contents_hex [
    | some _ ↦ err (codes "BAD_REQUEST", display.patch patch)
    | none ↦ ok (record { path = patch.path; op = delete })
  ]

  unfoldable pub decode_patch : Hashing → PatchParam → Result MethodError PatchHunk
  decode_patch h patch = elim patch.op [
    | none ↦ decode_write h patch
    | some op ↦
        if op == codes "write"
        then decode_write h patch
        else if op == codes "delete"
        then decode_delete patch
        else err (codes "BAD_REQUEST", display.patch patch)
  ]

  -- The loop over the patches of `apply_change`.
  unfoldable pub decode_patches : Hashing → List PatchParam → Result MethodError (List PatchHunk)
  decode_patches h [] = ok []
  decode_patches h (patch ∷ patches) = do
    hunk ← decode_patch h patch
    hunks ← decode_patches h patches
    ok (hunk ∷ hunks)

unfoldable pub not_cloned : MethodError
not_cloned = (codes "NOT_CLONED", codes "clone must be the first call")

-- The facts of a workspace that the daemon reports or binds.
pub record Workspace : Type 0 where
  pub repo_dir : Text
  pub runtime_dir : Text
  pub branch : Text
  pub base_sha : Text
  pub source_repo : Text
  pub mirror_dir : Text
  pub attempt_id : Text
  pub nonce_hex : Text
  pub generation : ℕ
  pub active_generation : ActiveGenerationBinding
  pub active_checkpoint : Checkpoint

pub record CloneRequest : Type 0 where
  pub source_repo : Text
  pub base_sha : Text
  pub variant_id : Text
  pub attempt_id : Text
  pub root : Text
  pub created_at : Text
  pub nonce : Bytes

pub record PreservationReceipt : Type 0 where
  pub token : Text
  pub receipt_digest : Text
  pub artifact_digest : Text
  pub destination : Text

-- The repository on disk as the daemon uses it: `Clone`, `Repo`, `Keeper` and `Cleanup` are
-- `PrivateClone`, `RealRepository`, `PreservationAuthority` and `AuthorizedCleanup`. A method on
-- `&mut self` returns the repository that it leaves.
pub record Repository (Clone Repo Keeper Cleanup : Type 0) : Type 0 where
  pub create : CloneRequest → Result CapabilityError Clone
  pub open_keeper : Clone → Result MethodError Keeper
  pub new : Clone → ScopeGrant → ExpectedAuthority → Text → Result CapabilityError Repo
  pub workspace : Repo → Workspace
  pub read_tree : Repo → AuthorityEnvelope → Result CapabilityError (List Text)
  pub apply_change :
      Repo → AuthorityEnvelope → List PatchHunk → Result CapabilityError (Unit {0}) × Repo
  pub validate_proposal :
      Repo → AuthorityEnvelope → PatchProposal → Result CapabilityError (Unit {0})
  pub apply_proposal :
      Repo → AuthorityEnvelope → PatchProposal → Result CapabilityError Checkpoint × Repo
  pub checkpoint : Repo → AuthorityEnvelope → Result CapabilityError Checkpoint × Repo
  pub validate_candidate_preparation :
      Repo → AuthorityEnvelope → CandidateProvenance → Result CapabilityError (Unit {0})
  pub prepare_candidate :
      Repo
      → AuthorityEnvelope
      → Change
      → CandidateProvenance
      → Result CapabilityError Candidate × Repo
  pub issue : Keeper → Repo → AuthorityEnvelope → Text → Result CapabilityError PreservationReceipt
  pub authorize_receipt : Keeper → Repo → AuthorityEnvelope → Text → Result CapabilityError Cleanup
  -- The hexadecimal digest of the receipt that was authorized.
  pub receipt_digest : Cleanup → Text
  -- The path of the tombstone, and the repository when cleaning up fails.
  pub cleanup : Cleanup → Repo → Text → Result CapabilityError Text × Repo

pub record Session (Repo Keeper : Type 0) : Type 0 where
  pub repo : Repo
  pub expected : ExpectedAuthority
  pub preservation : Keeper

-- A daemon, without the demonstration root of the feature `fixture-authority`.
pub record Daemon (Repo Keeper : Type 0) : Type 0 where
  pub session : Option (Session Repo Keeper)
  pub authority : AuthorityGateway
  pub mutation_frozen : Bool
