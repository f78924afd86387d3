-- ===== src/Policy/Compile/Hosts.antt =====
-- The compiled hosts of a domain (internal/policy/compile.go and internal/matcher/host.go).
use elchi_shield.Prelude.{
  ℕ, Bool, true, false, ◌&&◌, ◌||◌, ◌≡◌, refl, ◌∙◌, subst, List, [], ◌∷◌, Option, none, some, All,
  any, option_rule,
}
use elchi_shield.Strings.{Text, text_eq}
use elchi_shield.Strings.Equality.{text_eq_comm}
use elchi_shield.Matcher.Host.{Host, host_match, is_exact, normalize_host, compile_host}
use elchi_shield.Matcher.Host.Exact.{IsPlain, compile_host-MatchesNormal, MatchesNormal}
use elchi_shield.Policy.Resolver.{best_score}
use elchi_shield.Policy.Compile.{compile_hosts, all_exact}

-- The hosts as they are compiled.
abbrev pub AreCompiled : List Text → List Host → Type 0
AreCompiled [] [] = Unit
AreCompiled (h ∷ hs) (ch ∷ chs) = (compile_host h ≡ some ch) × AreCompiled hs chs
AreCompiled _ _ = ⊥

abbrev pub HostsCompiled : List Text → Option (List Host) → Type 0
HostsCompiled hs none = Unit
HostsCompiled hs (some chs) = AreCompiled hs chs

pub compile_hosts-HostsCompiled : (hs : List Text) → HostsCompiled hs (compile_hosts hs)
unfolding compile_hosts
compile_hosts-HostsCompiled [] = tt
compile_hosts-HostsCompiled (h ∷ hs) =
    option_rule (HostsCompiled (h ∷ hs)) (compile_host h) (λ e. tt)
      λ ch e.
        option_rule (HostsCompiled (h ∷ hs)) (compile_hosts hs) (λ f. tt)
          λ chs f. (e, subst (HostsCompiled hs) f (compile_hosts-HostsCompiled hs))

-- A host that matches no authority of the key.
unmatched :
    (h host : Text) (ch : Host)
    → IsPlain h
    → compile_host h ≡ some ch
    → is_exact ch ≡ true
    → text_eq (normalize_host h) (normalize_host host) ≡ false
    → host_match ch host ≡ false
unmatched h host ch plain e exact out =
    subst (MatchesNormal h host) e (compile_host-MatchesNormal h host plain) exact
    ∙ text_eq_comm (normalize_host host) (normalize_host h)
    ∙ out

or_both : (a b : Bool) → (a || b) ≡ false → (a ≡ false) × (b ≡ false)
or_both true b h = absurd cc
or_both false b h = (refl, h)

and_both : (a b : Bool) → (a && b) ≡ true → (a ≡ true) × (b ≡ true)
and_both true b h = (refl, h)
and_both false b h = absurd cc

pub best_score-unmatched :
    (hs : List Text) (chs : List Host) (host : Text) (best : Option ℕ)
    → All IsPlain hs
    → AreCompiled hs chs
    → all_exact chs ≡ true
    → any (λ h. text_eq (normalize_host h) (normalize_host host)) hs ≡ false
    → best_score chs host best ≡ best
unfolding best_score
best_score-unmatched [] [] host best p c e o = refl
best_score-unmatched [] (ch ∷ chs) host best p c e o = absurd c
best_score-unmatched (h ∷ hs) [] host best p c e o = absurd c
best_score-unmatched (h ∷ hs) (ch ∷ chs) host best (p, ps) (c, cs) e o =
    let (exact, exacts) = and_both (is_exact ch) (all_exact chs) e in
    let (out, outs) = or_both (text_eq (normalize_host h) (normalize_host host)) _ o in
    rw (unmatched h host ch p c exact out) (best_score-unmatched hs chs host best ps cs exacts outs)
