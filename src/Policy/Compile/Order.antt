-- ===== src/Policy/Compile/Order.antt =====
-- Which route of a domain a request takes (internal/policy/compile.go and resolver.go).
use elchi_shield.Prelude.{
  ℕ, Bool, true, false, ◌≡◌, refl, List, [], ◌∷◌, All, In, if_rule, inl, inr, ◌⊎◌, arith, ltb, ◌==◌,
  not, if◌then◌else◌, length, ◌≤◌,
}
use elchi_shield.Strings.{Text}
use elchi_shield.Matcher.Path.{
  PathKind, path_any, path_prefix, path_regex, path_exact, PathMatcher, kind_rank, prefix_len_kind,
  path_specificity, prefix_len,
}
use elchi_shield.Policy.{CompiledPolicy}
use elchi_shield.Policy.Resolver.{Input, CompiledRoute, route_matches, first_route}
use elchi_shield.Policy.Compile.{more_specific, insert_route, sort_routes}

-- No route of the list is more specific than the given one.
abbrev Leads : CompiledRoute → List CompiledRoute → Type 0
Leads r qs = All (λ q. more_specific q r ≡ false) qs

abbrev IsSorted : List CompiledRoute → Type 0
IsSorted [] = Unit
IsSorted (r ∷ rs) = Leads r rs × IsSorted rs

-- The order of two ranks, each a specificity and a length.
abbrev above : ℕ → ℕ → ℕ → ℕ → Bool
above s m t n = if not (s == t) then ltb t s else ltb n m

above_trans :
    (s m t n u k : ℕ) → above t n s m ≡ false → above u k t n ≡ false → above u k s m ≡ false
above_trans s m t n u k p q = ground arith

above_refl : (s m : ℕ) → above s m s m ≡ false
above_refl s m = ground arith

above_asym : (s m t n : ℕ) → above s m t n ≡ true → above t n s m ≡ false
above_asym s m t n p = ground arith

specific_trans :
    (a b c : CompiledRoute)
    → more_specific b a ≡ false
    → more_specific c b ≡ false
    → more_specific c a ≡ false
unfolding more_specific
specific_trans a b c p q =
    above_trans (path_specificity a.path) (prefix_len a.path) (path_specificity b.path)
      (prefix_len b.path) (path_specificity c.path) (prefix_len c.path) p q

specific_asym : (a b : CompiledRoute) → more_specific a b ≡ true → more_specific b a ≡ false
unfolding more_specific
specific_asym a b p =
    above_asym (path_specificity a.path) (prefix_len a.path) (path_specificity b.path)
      (prefix_len b.path) p

specific_refl : (a : CompiledRoute) → more_specific a a ≡ false
unfolding more_specific
specific_refl a = above_refl (path_specificity a.path) (prefix_len a.path)

All-map :
    (P Q : CompiledRoute → Type 0)
    → ((r : CompiledRoute) → P r → Q r)
    → (rs : List CompiledRoute) → All P rs
    → All Q rs
All-map P Q f [] h = tt
All-map P Q f (r ∷ rs) (h, hs) = (f r h, All-map P Q f rs hs)

module _ (P : CompiledRoute → Type 0) where
  insert-All :
      (r : CompiledRoute) (qs : List CompiledRoute) → P r → All P qs → All P (insert_route r qs)
  unfolding insert_route
  insert-All r [] h k = (h, tt)
  insert-All r (q ∷ qs) h (k, ks) =
      if_rule (All P) (more_specific q r) (λ i. (k, insert-All r qs h ks)) (λ i. (h, (k, ks)))

  sort-All : (rs : List CompiledRoute) → All P rs → All P (sort_routes rs)
  unfolding sort_routes
  sort-All [] h = tt
  sort-All (r ∷ rs) (h, hs) = insert-All r (sort_routes rs) h (sort-All rs hs)

  insert-All_back :
      (r : CompiledRoute) (qs : List CompiledRoute) → All P (insert_route r qs) → P r × All P qs
  unfolding insert_route
  insert-All_back r [] = λ h. (h.0, tt)
  insert-All_back r (q ∷ qs) =
      if_rule (λ (l : List CompiledRoute). All P l → P r × All P (q ∷ qs)) (more_specific q r)
        (λ i h. let (k, ks) = insert-All_back r qs h.1 in (k, (h.0, ks))) (λ i h. h)

  sort-All_back : (rs : List CompiledRoute) → All P (sort_routes rs) → All P rs
  unfolding sort_routes
  sort-All_back [] h = tt
  sort-All_back (r ∷ rs) h =
      let (k, ks) = insert-All_back r (sort_routes rs) h in (k, sort-All_back rs ks)

insert-IsSorted :
    (r : CompiledRoute) (qs : List CompiledRoute) → IsSorted qs → IsSorted (insert_route r qs)
unfolding insert_route
insert-IsSorted r [] h = (tt, tt)
insert-IsSorted r (q ∷ qs) (h, hs) =
    if_rule IsSorted (more_specific q r)
      (λ i. (
        insert-All (λ x. more_specific x q ≡ false) r qs (specific_asym q r i) h,
        insert-IsSorted r qs hs,
      ))
      (λ i. (
        (i, All-map _ (λ x. more_specific x r ≡ false) (λ x k. specific_trans r q x i k) qs h),
        (h, hs),
      ))

sort-IsSorted : (rs : List CompiledRoute) → IsSorted (sort_routes rs)
unfolding sort_routes
sort-IsSorted [] = tt
sort-IsSorted (r ∷ rs) = insert-IsSorted r (sort_routes rs) (sort-IsSorted rs)

-- Whether a path matcher of the first kind does not outrank one of the second: an exact path outranks a
-- regular expression, that a prefix, a longer prefix a shorter one, and any of them a matcher of any
-- path. The numbers are the lengths of the values.
abbrev pub YieldsKind : PathKind → PathKind → ℕ → ℕ → Type 0
YieldsKind path_any _ m n = Unit
YieldsKind path_prefix path_any m n = ⊥
YieldsKind path_prefix path_prefix m n = m ≤ n
YieldsKind path_prefix _ m n = Unit
YieldsKind path_regex path_any m n = ⊥
YieldsKind path_regex path_prefix m n = ⊥
YieldsKind path_regex _ m n = Unit
YieldsKind path_exact path_exact m n = Unit
YieldsKind path_exact _ m n = ⊥

abbrev pub Yields : PathMatcher → PathMatcher → Type 0
Yields q r = YieldsKind q.kind r.kind (length q.value) (length r.value)

rank-YieldsKind :
    (q r : PathKind) (a b : Text)
    → above (kind_rank q) (prefix_len_kind q a) (kind_rank r) (prefix_len_kind r b) ≡ false
    → YieldsKind q r (length a) (length b)
rank-YieldsKind path_any path_any a b h = tt
rank-YieldsKind path_any path_prefix a b h = tt
rank-YieldsKind path_any path_regex a b h = tt
rank-YieldsKind path_any path_exact a b h = tt
rank-YieldsKind path_prefix path_any a b h = absurd cc
rank-YieldsKind path_prefix path_prefix a b h = ground arith
rank-YieldsKind path_prefix path_regex a b h = tt
rank-YieldsKind path_prefix path_exact a b h = tt
rank-YieldsKind path_regex path_any a b h = absurd cc
rank-YieldsKind path_regex path_prefix a b h = absurd cc
rank-YieldsKind path_regex path_regex a b h = tt
rank-YieldsKind path_regex path_exact a b h = tt
rank-YieldsKind path_exact path_any a b h = absurd cc
rank-YieldsKind path_exact path_prefix a b h = absurd cc
rank-YieldsKind path_exact path_regex a b h = absurd cc
rank-YieldsKind path_exact path_exact a b h = tt

specific-Yields : (q r : CompiledRoute) → more_specific q r ≡ false → Yields q.path r.path
unfolding more_specific prefix_len
specific-Yields q r h = rank-YieldsKind q.path.kind r.path.kind q.path.value r.path.value h

module _ (inp : Input) (P : CompiledRoute → Type 0) where
  -- The outcome over a list: the fallback if no route matches, or the policy of a matching route with
  -- `P` that no matching route outranks.
  abbrev pub Finds : List CompiledRoute → CompiledPolicy → CompiledPolicy → Type 0
  Finds rs fallback out =
      (All (λ r. route_matches r inp ≡ false) rs × (out ≡ fallback))
      ⊎ ((r : CompiledRoute) × P r
          × (route_matches r inp ≡ true)
          × (out ≡ r.policy)
          × All (λ q. route_matches q inp ≡ true → Yields q.path r.path) rs)

  first_route-Finds :
      (rs : List CompiledRoute) (fallback : CompiledPolicy)
      → IsSorted rs
      → All P rs
      → Finds rs fallback (first_route inp rs fallback)
  unfolding first_route
  first_route-Finds [] fallback s h = inl (tt, refl)
  first_route-Finds (r ∷ rs) fallback (lead, s) (h, hs) =
      if_rule (Finds (r ∷ rs) fallback) (route_matches r inp)
        (λ m. inr (
          r,
          h,
          m,
          refl,
          (
            (λ k. specific-Yields r r (specific_refl r)),
            All-map _ (λ q. route_matches q inp ≡ true → Yields q.path r.path)
                (λ q k n. specific-Yields q r k) rs lead,
          ),
        ))
        (λ m. elim (first_route-Finds rs fallback s hs) [
          | inl (no_match, e) ↦ inl ((m, no_match), e)
          | inr (q, pq, mq, e, best) ↦ inr (q, pq, mq, e, ((λ k. absurd cc), best))
        ])

self_In : (rs : List CompiledRoute) → All (λ q. In q rs) rs
self_In [] = tt
self_In (r ∷ rs) =
    (inl refl, All-map (λ q. In q rs) (λ q. In q (r ∷ rs)) (λ q i. inr i) rs (self_In rs))

-- Whatever the order of a domain's routes in the configuration, a request takes the policy of a route
-- that matches it and that no matching route outranks, exact paths before regular expressions before
-- longer prefixes before shorter ones, or the domain's default policy exactly if no route matches.
pub sort_routes-Finds :
    (inp : Input) (rs : List CompiledRoute) (fallback : CompiledPolicy)
    → Finds inp (λ r. In r rs) rs fallback (first_route inp (sort_routes rs) fallback)
sort_routes-Finds inp rs fallback =
    elim (first_route-Finds inp (λ r. In r rs) (sort_routes rs) fallback (sort-IsSorted rs)
      (sort-All _ rs (self_In rs))) [
        | inl (none_matches, e) ↦ inl (sort-All_back _ rs none_matches, e)
        | inr (r, i, m, e, best) ↦ inr (r, i, m, e, sort-All_back _ rs best)
      ]
