-- ===== src/Config/UniqueHosts.antt =====
-- Hosts that several domains claim (internal/config/validate.go, validateMerged).
use elchi_shield.Prelude.{
  ℕ, ◌+◌, Bool, true, false, ◌≡◌, refl, subst, List, [], ◌∷◌, ◌++◌, Option, none, some, map, In,
  inl, inr, if◌then◌else◌, All, Bool-cases, ap, sym, ◌∙◌,
}
use elchi_shield.Strings.{Text, IsAscii, text_eq, equal_fold, trim_space}
use elchi_shield.Strings.Equality.{text_eq→≡, text_eq_refl}
use elchi_shield.Config.Merge.{MergedDomain, MergedConfig}
use elchi_shield.Config.Duplicates.{
  Duplicate, host_key, find_source, note_host, note_hosts, note_domains, validate_merged,
}

abbrev keys : List (Text × Text) → List Text
keys [] = []
keys ((k, source) ∷ seen) = k ∷ keys seen

-- Each key is neither among the seen ones nor repeated.
abbrev AllNew : List Text → List Text → Type 0
AllNew [] seen = Unit
AllNew (k ∷ ks) seen = (¬ In k seen) × AllNew ks (k ∷ seen)

-- The seen keys after `ks`.
abbrev after : List Text → List Text → List Text
after [] seen = seen
after (k ∷ ks) seen = after ks (k ∷ seen)

-- No member stands twice.
abbrev AllDistinct : List Text → Type 0
AllDistinct [] = Unit
AllDistinct (k ∷ ks) = (¬ In k ks) × AllDistinct ks

-- Two hosts that differ by more than the case of letters and spaces around them.
abbrev IsApart : Text → Text → Type 0
IsApart a b = equal_fold (trim_space a) (trim_space b) ≡ false

-- Each host is apart from all later ones.
abbrev pub AllApart : List Text → Type 0
AllApart [] = Unit
AllApart (h ∷ hs) = All (IsApart h) hs × AllApart hs

keys-IsApart :
    (h : Text) (hs : List Text) → ¬ In (host_key h) (map host_key hs) → All (IsApart h) hs
unfolding host_key equal_fold
keys-IsApart h [] n = tt
keys-IsApart h (k ∷ hs) n = (
  elim (Bool-cases (text_eq (host_key h) (host_key k))) [
    | inl same ↦ absurd (n (inl (text_eq→≡ (host_key h) (host_key k) same)))
    | inr apart ↦ apart
  ],
  keys-IsApart h hs (λ i. n (inr i)),
)

distinct-AllApart : (hs : List Text) → AllDistinct (map host_key hs) → AllApart hs
distinct-AllApart [] d = tt
distinct-AllApart (h ∷ hs) (n, d) = (keys-IsApart h hs n, distinct-AllApart hs d)

map-append : (xs ys : List Text) → map host_key (xs ++ ys) ≡ map host_key xs ++ map host_key ys
map-append [] ys = refl
map-append (x ∷ xs) ys = ap (λ ks. host_key x ∷ ks) (map-append xs ys)

AllNew-append :
    (xs ys seen : List Text) → AllNew xs seen → AllNew ys (after xs seen) → AllNew (xs ++ ys) seen
AllNew-append [] ys seen h k = k
AllNew-append (x ∷ xs) ys seen (h, hs) k = (h, AllNew-append xs ys (x ∷ seen) hs k)

seen_absent : (ks seen : List Text) (x : Text) → AllNew ks seen → In x seen → ¬ In x ks
seen_absent [] seen x h m n = n
seen_absent (k ∷ ks) seen x (h, hs) m (inl e) = h (subst (λ t. In t seen) e m)
seen_absent (k ∷ ks) seen x (h, hs) m (inr n) = seen_absent ks (k ∷ seen) x hs (inr m) n

AllNew-AllDistinct : (ks seen : List Text) → AllNew ks seen → AllDistinct ks
AllNew-AllDistinct [] seen h = tt
AllNew-AllDistinct (k ∷ ks) seen (h, hs) =
    (seen_absent ks (k ∷ seen) k hs (inl refl), AllNew-AllDistinct ks (k ∷ seen) hs)

not_found :
    (b : Bool) (source : Text) (o : Option Text) → (if b then some source else o) ≡ none → o ≡ none
not_found true source o e = absurd cc
not_found false source o e = e

unseen : (k : Text) (seen : List (Text × Text)) → find_source k seen ≡ none → ¬ In k (keys seen)
unfolding find_source
unseen k [] e m = m
unseen k ((k', source) ∷ seen) e (inl same) =
    let own : text_eq k k' ≡ true = subst (λ t. text_eq k t ≡ true) same (text_eq_refl k) in
    absurd cc
unseen k ((k', source) ∷ seen) e (inr m) =
    unseen k seen (not_found (text_eq k k') source (find_source k seen) e) m

nil_both : (xs ys : List Duplicate) → xs ++ ys ≡ [] → (xs ≡ []) × (ys ≡ [])
nil_both [] ys e = (refl, e)
nil_both (x ∷ xs) ys e = absurd cc

-- What a silent round over the hosts of a domain says.
abbrev Silent : List Text → List (Text × Text) → List Duplicate × List (Text × Text) → Type 0
Silent hs seen r =
    r.0 ≡ []
    → AllNew (map host_key hs) (keys seen) × (keys r.1 ≡ after (map host_key hs) (keys seen))

-- One round of the inner loop, by what is found.
abbrev noted :
    ℕ
    → Text
    → Text
    → List Text
    → List (Text × Text)
    → Option Text
    → List Duplicate × List (Text × Text)
noted i source h hs seen o =
    let next = note_host i source h seen o in
    let rest = note_hosts i source hs next.1 in (next.0 ++ rest.0, rest.1)

noted-Silent :
    (i : ℕ) (source h : Text) (hs : List Text) (seen : List (Text × Text)) (o : Option Text)
    → find_source (host_key h) seen ≡ o
    → ((next : List (Text × Text)) → Silent hs next (note_hosts i source hs next))
    → Silent (h ∷ hs) seen (noted i source h hs seen o)
noted-Silent i source h hs seen none free later = λ e.
    let (fresh, same) = later ((host_key h, source) ∷ seen) e in
    ((unseen (host_key h) seen free, fresh), same)
noted-Silent i source h hs seen (some prev) found later = λ e. absurd cc

note_hosts-Silent :
    (i : ℕ) (source : Text) (hs : List Text) (seen : List (Text × Text))
    → Silent hs seen (note_hosts i source hs seen)
unfolding note_hosts
note_hosts-Silent i source [] seen = λ e. (tt, refl)
note_hosts-Silent i source (h ∷ hs) seen =
    noted-Silent i source h hs seen (find_source (host_key h) seen) refl
      λ next. note_hosts-Silent i source hs next

module _ {E F : Type 0} where
  -- The keys of all hosts, in the order of the domains.
  abbrev host_keys : List (MergedDomain E F) → List Text
  host_keys [] = []
  host_keys (md ∷ mds) = map host_key md.domain.hosts ++ host_keys mds

  note_domains-AllNew :
      (i : ℕ) (mds : List (MergedDomain E F)) (seen : List (Text × Text))
      → note_domains i mds seen ≡ []
      → AllNew (host_keys mds) (keys seen)
  unfolding note_domains
  note_domains-AllNew i [] seen e = tt
  note_domains-AllNew i (md ∷ mds) seen e =
      let r = note_hosts i md.source md.domain.hosts seen in
      let (here, later) = nil_both r.0 (note_domains (i + 1) mds r.1) e in
      let (fresh, same) = note_hosts-Silent i md.source md.domain.hosts seen here in
      AllNew-append (map host_key md.domain.hosts) (host_keys mds) (keys seen) fresh
        (subst (λ s. AllNew (host_keys mds) s) same (note_domains-AllNew (i + 1) mds r.1 later))

  -- All hosts, in the order of the domains.
  abbrev pub hosts_of : List (MergedDomain E F) → List Text
  hosts_of [] = []
  hosts_of (md ∷ mds) = md.domain.hosts ++ hosts_of mds

  keys-hosts : (mds : List (MergedDomain E F)) → host_keys mds ≡ map host_key (hosts_of mds)
  keys-hosts [] = refl
  keys-hosts (md ∷ mds) =
      ap (λ ks. map host_key md.domain.hosts ++ ks) (keys-hosts mds)
      ∙ sym (map-append md.domain.hosts (hosts_of mds))

  -- If all hosts are ASCII and the checks across files find no problem, no two hosts of the
  -- configuration, in one domain or in two, are the same but for their case and the spaces around them.
  pub validate_merged-AllApart :
      (m : MergedConfig E F)
      → All IsAscii (hosts_of m.domains)
      → validate_merged m ≡ []
      → AllApart (hosts_of m.domains)
  unfolding validate_merged
  validate_merged-AllApart m ascii e = distinct-AllApart (hosts_of m.domains) (
      subst AllDistinct (keys-hosts m.domains)
        (AllNew-AllDistinct (host_keys m.domains) [] (note_domains-AllNew 0 m.domains [] e)))
