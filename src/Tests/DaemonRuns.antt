-- ===== src/Tests/DaemonRuns.antt =====
-- The daemon, with a repository that has nothing in it.
use bullet_git.Prelude.{
  ℕ, ◌+◌, ℕ_discrete, text_discrete, ◌≡◌, ◌⊎◌, refl, true, false, none, some, [], ◌∷◌, Bytes, Text,
  codes, ok, err, text_eq,
}
use bullet_git.Journal.{Checkpoint, checkpoint}
use bullet_git.Gitd.Gateway.Types.{AuthorityGateway}
use bullet_git.Gitd.Daemon.Types.{Request, Repository, Daemon, Workspace, not_cloned, other}
use bullet_git.Workspace.Error.{unauthorized}
use bullet_git.Gitd.Daemon.{Parts, Turn, verify_token, current}
use bullet_git.Gitd.Daemon.Handlers.{dispatch, handle_apply_change}
use bullet_git.Gitd.Daemon.Latch.{dispatch_latches, frozen_daemon_keeps}
use bullet_git.Tests.Instances.{hashing}
use bullet_git.Tests.Samples.{unicode, json, codec, empty_ledger}
use bullet_git.Tests.Basics.{decoder, expected}
use bullet_git.Tests.GatewayRuns.{outside}
use bullet_git.Tests.CandidateRuns.{canonical}

abbrev parts : Parts Bytes
parts = record {
  json = json;
  hashing = hashing;
  events = codec;
  tokens = decoder;
  unicode = unicode;
  canonical = canonical;
  params = record {
    clone = λ v. none;
    apply = λ v. some [];
    proposal = λ v. none;
    prepare = λ v. none;
    bind_proof = λ v. none;
    verify_proof = λ v. none;
    preserve = λ v. some v;
    cleanup = λ v. none;
  };
  encoder = record {
    text = λ t. t;
    texts = λ ts. [];
    number = λ n. n ∷ [];
    boolean = λ b. [];
    digest = λ b. b;
    binding = λ b. [];
    checkpoint = λ c. some c.digest;
    candidate = λ c. some c.id;
    proof_root = λ r. some r.root;
  };
  display = record {
    capability = λ e. [];
    authority = λ e. [];
    gateway = λ e. [];
    candidate = λ e. [];
    params = λ v. [];
    patch = λ p. [];
    encoding = [];
    proof_root = [];
  };
  token_shape = λ v. other;
}

abbrev point : Checkpoint
point = checkpoint hashing []

abbrev workspace : Workspace
workspace = record {
  repo_dir = codes "repo";
  runtime_dir = codes "runtime";
  branch = codes "b";
  base_sha = codes "sha1:0";
  source_repo = codes "s";
  mirror_dir = codes "m";
  attempt_id = codes "a";
  nonce_hex = [];
  generation = 0;
  active_generation = record {
    generation = 0;
    parent = none;
    manifest_digest = [];
    pointer_digest = [];
    checkpoint = point;
  };
  active_checkpoint = point;
}

-- A repository that counts its changes.
abbrev repository : Repository Bytes ℕ Bytes Text
repository = record {
  create = λ r. ok [];
  open_keeper = λ c. ok [];
  new = λ c g e date. ok 0;
  workspace = λ r. workspace;
  read_tree = λ r e. ok [];
  apply_change = λ r e hunks. (ok tt, r + 1);
  validate_proposal = λ r e p. ok tt;
  apply_proposal = λ r e p. (err unauthorized, r + 1);
  checkpoint = λ r e. (ok point, r);
  validate_candidate_preparation = λ r e p. ok tt;
  prepare_candidate = λ r e c p. (err unauthorized, r);
  issue = λ k r e d. err unauthorized;
  authorize_receipt = λ k r e t. ok t;
  receipt_digest = λ c. c;
  cleanup = λ c r at_. (err unauthorized, r);
}

abbrev turn : Turn Bytes
turn = record {
  attached = λ root. none;
  authorizing = outside;
  consuming = outside;
  settling = outside;
}

abbrev apply : Request Bytes
apply = record { id = []; method = codes "apply_change"; token = codes "t"; params = [] }

abbrev gateway_here : AuthorityGateway
gateway_here = record { ledger = some empty_ledger; ledger_root = some (some []) }

abbrev fresh_daemon : Daemon ℕ Bytes
fresh_daemon = record { session = none; authority = gateway_here; mutation_frozen = false }

fresh_refuses :
    (dispatch Bytes Bytes ℕ Bytes Text parts repository turn apply fresh_daemon).0 ≡ err not_cloned
unfolding dispatch handle_apply_change verify_token current text_discrete ℕ_discrete
fresh_refuses = refl

dispatch_latches_example :
    let left = dispatch Bytes Bytes ℕ Bytes Text parts repository turn apply fresh_daemon in
    (left.1.session ≡ none) ⊎ (left.1.mutation_frozen ≡ true)
dispatch_latches_example =
    dispatch_latches Bytes Bytes ℕ Bytes Text parts repository turn apply fresh_daemon not_cloned
      fresh_refuses

abbrev frozen_daemon : Daemon ℕ Bytes
frozen_daemon = record {
  session = some (record { repo = 3; expected = expected; preservation = [] });
  authority = gateway_here;
  mutation_frozen = true;
}

frozen_daemon_keeps_example :
    let left = dispatch Bytes Bytes ℕ Bytes Text parts repository turn apply frozen_daemon in
    (left.1.session ≡ frozen_daemon.session)
    × (left.1.mutation_frozen ≡ true)
    × (left.1.authority.ledger ≡ some empty_ledger)
frozen_daemon_keeps_example =
    frozen_daemon_keeps Bytes Bytes ℕ Bytes Text parts repository turn apply frozen_daemon refl
