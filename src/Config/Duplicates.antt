-- ===== src/Config/Duplicates.antt =====
-- internal/config/validate.go: the checks across the files of a merged configuration.
use elchi_shield.Prelude.{ℕ, ◌+◌, List, [], ◌∷◌, ◌++◌, Option, none, some, if◌then◌else◌}
use elchi_shield.Strings.{Text, text_eq, to_lower, trim_space}
use elchi_shield.Config.Merge.{MergedDomain, MergedConfig}

-- A host that is claimed twice: the index and the file of the domain that claims it, the host, and
-- the file that claims it first.
pub record Duplicate : Type 0 where
  pub index : ℕ
  pub source : Text
  pub host : Text
  pub prev : Text

abbrev Seen : Type 0
Seen = List (Text × Text)

-- The key of a host.
unfoldable pub host_key : Text → Text
unfolding to_lower trim_space
host_key h = to_lower (trim_space h)

unfoldable pub find_source : Text → Seen → Option Text
unfolding text_eq
find_source k [] = none
find_source k ((k', source) ∷ seen) = if text_eq k k' then some source else find_source k seen

-- One round of the inner loop, by what is found.
abbrev pub note_host : ℕ → Text → Text → Seen → Option Text → List Duplicate × Seen
note_host i source h seen (some prev) =
    (record { index = i; source = source; host = h; prev = prev } ∷ [], seen)
note_host i source h seen none = ([], (host_key h, source) ∷ seen)

-- The hosts of a domain.
unfoldable pub note_hosts : ℕ → Text → List Text → Seen → List Duplicate × Seen
unfolding find_source host_key
note_hosts i source [] seen = ([], seen)
note_hosts i source (h ∷ hs) seen =
    let next = note_host i source h seen (find_source (host_key h) seen) in
    let rest = note_hosts i source hs next.1 in (next.0 ++ rest.0, rest.1)

module _ {E F : Type 0} where
  unfoldable pub note_domains : ℕ → List (MergedDomain E F) → Seen → List Duplicate
  unfolding note_hosts
  note_domains i [] seen = []
  note_domains i (md ∷ mds) seen =
      let r = note_hosts i md.source md.domain.hosts seen in r.0 ++ note_domains (i + 1) mds r.1

  -- `validateMerged`.
  unfoldable pub validate_merged : MergedConfig E F → List Duplicate
  unfolding note_domains
  validate_merged m = note_domains 0 m.domains []
