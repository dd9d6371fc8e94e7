-- ===== src/Workspace/GitConfig.antt =====
-- crates/bullet-git-workspace/src/git_config.rs: the refusal of hostile configuration keys.
use bullet_git.Prelude.{
  Bool, ◌||◌, ◌&&◌, List, [], ◌∷◌, Text, codes, any, ◌==◌, text_eq, starts_with, reverse,
  to_ascii_lowercase, if◌then◌else◌, is_empty, Result, ok, err, Bytes,
}
use bullet_git.Workspace.Error.{CapabilityError, hostile_git_config}

-- `str::ends_with` at a text.
unfoldable pub ends_with_text : Text → Text → Bool
ends_with_text suffix s = starts_with (reverse suffix) (reverse s)

-- The keys of the `matches!`.
abbrev forbidden_keys : List Text
forbidden_keys =
    codes "core.askpass"
    ∷ codes "core.attributesfile"
    ∷ codes "core.editor"
    ∷ codes "core.excludesfile"
    ∷ codes "core.fsmonitor"
    ∷ codes "core.hookspath"
    ∷ codes "core.gitproxy"
    ∷ codes "core.pager"
    ∷ codes "core.sparsecheckout"
    ∷ codes "core.sparsecheckoutcone"
    ∷ codes "core.sshcommand"
    ∷ codes "core.worktree"
    ∷ codes "credential.helper"
    ∷ codes "gpg.program"
    ∷ codes "gpg.ssh.program"
    ∷ codes "index.sparse"
    ∷ codes "interactive.difffilter"
    ∷ codes "sequence.editor"
    ∷ []

unfoldable pub forbidden : Text → Bool
unfolding ends_with_text
forbidden raw_key =
    let key = to_ascii_lowercase raw_key in
    starts_with (codes "filter.") key
    || starts_with (codes "include.") key
    || starts_with (codes "includeif.") key
    || starts_with (codes "alias.") key
    || starts_with (codes "pager.") key
    || (starts_with (codes "url.") key
        && (ends_with_text (codes ".insteadof") key || ends_with_text (codes ".pushinsteadof") key))
    || (starts_with (codes "remote.") key
        && (ends_with_text (codes ".uploadpack") key || ends_with_text (codes ".receivepack") key))
    || (starts_with (codes "diff.") key
        && (ends_with_text (codes ".command") key || ends_with_text (codes ".textconv") key))
    || (starts_with (codes "merge.") key && ends_with_text (codes ".driver") key)
    || (starts_with (codes "submodule.") key && ends_with_text (codes ".update") key)
    || any (λ k. k == key) forbidden_keys

-- The loop over the names that `git config --null --name-only --list` prints; `from_utf8` is the
-- standard library's test of UTF-8.
unfoldable pub refuse_keys : (Bytes → Bool) → List Bytes → Result CapabilityError (Unit {0})
unfolding forbidden
refuse_keys utf8 [] = ok tt
refuse_keys utf8 (raw ∷ rest) =
    let next = refuse_keys utf8 rest in
    if is_empty raw
    then next
    else if utf8 raw
    then (if forbidden raw then err hostile_git_config else next)
    else err hostile_git_config
