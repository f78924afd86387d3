-- ===== src/Engine/Xfcc/Last.antt =====
-- Which element of the header decides (internal/engine/xfcc).
use elchi_shield.Prelude.{ℕ, Bool, true, false, not, List, [], ◌∷◌, if◌then◌else◌}
use elchi_shield.Strings.{Text, lit}
use elchi_shield.Engine.Xfcc.{Scan, advance, Engine, blocked}
use elchi_shield.Decision.{Verdict, no_verdict}

-- Where a scan ends.
abbrev pub ends : Scan → Text → Scan
unfolding advance
ends st [] = st
ends st (c ∷ s) = ends (advance st c) s

abbrev cut_at : Bool → ℕ → Text × List Text → Text × List Text
cut_at true c (p, ps) = ([], p ∷ ps)
cut_at false c (p, ps) = (c ∷ p, ps)

-- The verdict on a header that is not blank.
abbrev verdict_on : Engine → Bool → Verdict
verdict_on e allowed =
    if not e.has_allow
    then no_verdict
    else if allowed
    then no_verdict
    else blocked (lit "xfcc.no_match") (lit "client certificate identity not in the allow-list")
