-- ===== src/Tests/Basics.antt =====
-- Digests, identifiers, tokens, lineage, scopes and journals.
use bullet_git.Prelude.{
  ℕ_discrete, text_discrete, ◌≡◌, ◌≢◌, ◌↔◌, refl, true, none, some, [], ◌∷◌, ◌++◌, Bytes, Text,
  codes, length, ◌==◌, nat_eq, text_eq, if◌then◌else◌, ok, arith,
}
use mathlib.Core.List.{Memᴰ}
use bullet_git.Types.Digest.{Digest, is_hex_byte, is_lower_hex, is_digest, to_hex, from_hex}
use bullet_git.Types.Digest.Framing.{frame_all-injective, from_hex_iff, from_hex_canonical}
use bullet_git.Types.Ids.{parse, prefixed}
use bullet_git.Types.Ids.Canonical.{parse_iff_canonical}
use bullet_git.Types.GitOid.{GitOidAlgorithm, sha1, new, algorithm, hex}
use bullet_git.Types.GitOid
use bullet_git.Types.GitOid.RoundTrip.{from_hex_reads_back}
use bullet_git.Types.Authority.{
  AuthorityEnvelope, WireAuthorityToken, ExpectedAuthority, TokenDecoder, require,
}
use bullet_git.Types.Authority.Checks.{require_iff}
use bullet_git.Types.Lineage.{
  Change, EvolutionEdge, rebase, ChangeEvolution, LineageGraph, find, record_change, record_edge,
  query,
}
use bullet_git.Types.Lineage.Graph.{edges_at, record_change-query, record_edge-query}
use bullet_git.Workspace.Scope.{ScopeGrant, normalize_rel_path, check}
use bullet_git.Workspace.Scope.Segments.{IsNormalPath, normalize_rel_path_iff}
use bullet_git.Workspace.Scope.Coverage.{Covers, check_iff}
use bullet_git.Journal.{
  Journal, write, optional_fields, checkpoint, identity_is_valid, bind_git_tree,
}
use bullet_git.Journal.Preimage.{FitsOp, tree_preimage-injective, checkpoint_identity_valid}
use bullet_git.Tests.Instances.{hashing, hashing_laws, repeat}
use bullet_git.Tests.Samples.{unicode, zeros}

frame_all-injective_example : codes "ab" ∷ [] ≡ codes "ab" ∷ []
frame_all-injective_example =
    frame_all-injective (codes "ab" ∷ []) (codes "ab" ∷ []) (omega arith, tt) (omega arith, tt) refl

abbrev digest : Digest
digest = repeat 32 7

digest_shape : is_digest digest ≡ true
unfolding is_digest ℕ_discrete
digest_shape = refl

from_hex_iff_example :
    (from_hex hashing (to_hex hashing digest) ≡ ok digest)
    ↔ (to_hex hashing digest ≡ to_hex hashing digest)
from_hex_iff_example = from_hex_iff hashing hashing_laws (to_hex hashing digest) digest digest_shape

reads_back : from_hex hashing (to_hex hashing digest) ≡ ok digest
reads_back = (from_hex_iff hashing hashing_laws (to_hex hashing digest) digest digest_shape).1 refl

from_hex_canonical_example :
    (to_hex hashing digest ≡ to_hex hashing digest)
    × (length digest ≡ 32)
    × (is_lower_hex (to_hex hashing digest) 64 ≡ true)
from_hex_canonical_example =
    from_hex_canonical hashing hashing_laws (to_hex hashing digest) digest reads_back

parse_iff_canonical_example :
    (parse (codes "mut") (codes "mut_" ++ zeros) ≡ ok (codes "mut_" ++ zeros)) ↔ (
      (codes "mut_" ++ zeros ≡ codes "mut_" ++ zeros)
      × (body : Text) × (codes "mut_" ++ zeros ≡ prefixed (codes "mut") ++ body)
      × (is_lower_hex body 64 ≡ true))
parse_iff_canonical_example =
    parse_iff_canonical (codes "mut") (codes "mut_" ++ zeros) (codes "mut_" ++ zeros)

abbrev digits : Text
digits = repeat 40 b'a'

oid_made : GitOid.from_hex sha1 digits ≡ ok (codes "sha1:" ++ digits)
unfolding GitOid.from_hex is_lower_hex is_hex_byte ℕ_discrete
oid_made = refl

from_hex_reads_back_example :
    (new (codes "sha1:" ++ digits) ≡ ok (codes "sha1:" ++ digits))
    × (algorithm (codes "sha1:" ++ digits) ≡ sha1)
    × (hex (codes "sha1:" ++ digits) ≡ some digits)
from_hex_reads_back_example = from_hex_reads_back sha1 digits (codes "sha1:" ++ digits) oid_made

abbrev pub token : WireAuthorityToken
token = record {
  variant_id = codes "v";
  attempt_id = codes "a";
  attempt_fence = 7;
  workspace_nonce = [];
}

abbrev pub decoder : TokenDecoder
decoder bytes = some token

abbrev pub expected : ExpectedAuthority
expected = record { attempt_id = codes "a"; attempt_fence = 7; workspace_nonce = [] }

abbrev pub envelope : AuthorityEnvelope
envelope = record { token = codes "t" }

require_iff_example : (require decoder expected envelope ≡ ok token) ↔ (
    (◌≢◌ {A = Bytes} envelope.token [])
    × (decoder envelope.token ≡ some token)
    × (token.attempt_id ≡ expected.attempt_id)
    × (token.attempt_fence ≡ expected.attempt_fence)
    × (token.workspace_nonce ≡ expected.workspace_nonce))
require_iff_example = require_iff decoder expected envelope token

abbrev change : Change
change = record { id = codes "c"; mission = codes "m"; acceptance_root = [] }

abbrev edge : EvolutionEdge
edge = record { from = codes "x"; to = codes "y"; kind = rebase }

abbrev graph : LineageGraph
graph = record { change = change; edges = [] } ∷ []

records : (record_change [] change).0 ≡ ok tt
unfolding record_change find
records = refl

record_change-query_example :
    ((row : ChangeEvolution) × (query (record_change [] change).1 change.id ≡ ok row)
      × (row.change ≡ change)
      × (row.edges ≡ edges_at [] change.id))
    × ((id : Text)
        → query (record_change [] change).1 id
          ≡ (if change.id == id then query (record_change [] change).1 change.id else query [] id))
record_change-query_example = record_change-query [] change records

there : find (codes "c") graph ≡ some (record { change = change; edges = [] })
unfolding find text_discrete ℕ_discrete
there = refl

record_edge-query_example :
    ((record_edge graph (codes "c") edge).0 ≡ ok tt)
    × ((j : Text)
        → query (record_edge graph (codes "c") edge).1 j ≡ (
            if j == codes "c"
            then ok (record { change = change; edges = edge ∷ [] })
            else query graph j))
record_edge-query_example =
    record_edge-query graph (codes "c") edge (record { change = change; edges = [] }) there

normalize_rel_path_iff_example :
    (normalize_rel_path unicode (codes "src/a") ≡ ok (codes "src/a"))
    ↔ ((codes "src/a" ≡ unicode.nfc (codes "src/a")) × IsNormalPath (codes "src/a"))
normalize_rel_path_iff_example = normalize_rel_path_iff unicode (codes "src/a") (codes "src/a")

abbrev pub grant : ScopeGrant
grant = record { allowed_prefixes = codes "src" ∷ [] }

check_iff_example : (check unicode grant (codes "src/a") ≡ ok (codes "src/a")) ↔ (
    (codes "src/a" ≡ unicode.nfc (codes "src/a"))
    × IsNormalPath (codes "src/a")
    × ((prefix : Text) × Memᴰ prefix grant.allowed_prefixes × Covers prefix (codes "src/a")))
check_iff_example = check_iff unicode grant (codes "src/a") (codes "src/a")

abbrev pub journal : Journal
journal =
    record { seq = 1; path = codes "src/a"; kind = write; before = none; after = some digest } ∷ []

op_fits :
    FitsOp
      (record { seq = 1; path = codes "src/a"; kind = write; before = none; after = some digest })
unfolding optional_fields
op_fits = record {
  seq = omega arith;
  path = omega arith;
  before = (omega arith, tt);
  after = (omega arith, (omega arith, tt));
}

tree_preimage-injective_example : journal ≡ journal
tree_preimage-injective_example =
    tree_preimage-injective journal journal (op_fits, tt) (op_fits, tt) refl

checkpoint_identity_valid_example :
    let bound = bind_git_tree hashing (codes "sha1:0") (checkpoint hashing journal) in
    (identity_is_valid hashing (checkpoint hashing journal) ≡ true)
    × (identity_is_valid hashing bound ≡ true)
    × (bound.through_seq ≡ (checkpoint hashing journal).through_seq)
    × (bound.tree ≡ (checkpoint hashing journal).tree)
checkpoint_identity_valid_example = checkpoint_identity_valid hashing journal (codes "sha1:0")
