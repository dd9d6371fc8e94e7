-- ===== src/Workspace/Status.antt =====
-- crates/bullet-git-workspace/src/status.rs: lines of `git status --porcelain=v2`.
use bullet_git.Prelude.{
  ℕ, zero, suc, Option, none, some, [], ◌∷◌, Text, codes, ◌==◌, nat_eq, text_eq, if◌then◌else◌,
  split_once, split,
}

pub data StatusEntry : Type 0 where
  tracked : Text → StatusEntry
  untracked : Text → StatusEntry

-- `rest.splitn(n + 1, ' ').nth(n)`: what stands behind the first n spaces, if there are as many.
unfoldable pub behind_spaces : ℕ → Text → Option Text
behind_spaces zero rest = some rest
behind_spaces (suc n) rest = elim (split_once b' ' rest) [
  | none ↦ none
  | some (_, after) ↦ behind_spaces n after
]

-- `tail.split('\t').next().unwrap_or(tail)`
unfoldable pub before_tab : Text → Text
before_tab tail = elim (split 9 tail) [ [] ↦ tail | path ∷ _ ↦ path ]

unfoldable pub classify : Text → Text → Option StatusEntry
unfolding behind_spaces before_tab
classify kind rest =
    if kind == codes "?"
    then some (untracked rest)
    else if kind == codes "1"
    then elim (behind_spaces 7 rest) [ none ↦ none | some path ↦ some (tracked path) ]
    else if kind == codes "u"
    then elim (behind_spaces 9 rest) [ none ↦ none | some path ↦ some (tracked path) ]
    else if kind == codes "2"
    then elim (behind_spaces 8 rest) [ none ↦ none | some tail ↦ some (tracked (before_tab tail)) ]
    else none

unfoldable pub parse_status_line : Text → Option StatusEntry
unfolding classify
parse_status_line line = elim (split_once b' ' line) [
  | none ↦ none
  | some (kind, rest) ↦ classify kind rest
]
