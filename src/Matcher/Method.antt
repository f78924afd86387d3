-- ===== src/Matcher/Method.antt =====
-- internal/matcher/method.go: an allow-list of methods, stored in upper case. The empty set allows any.
use elchi_shield.Prelude.{Bool, true, List, map, if◌then◌else◌}
use elchi_shield.Strings.{Text, is_empty, set_has, to_upper, trim_space}

-- The keys of the source's map.
pub record Methods : Type 0 where
  pub set : List Text

unfoldable pub compile_methods : List Text → Methods
unfolding to_upper trim_space
compile_methods methods = record { set = map (λ m. to_upper (trim_space m)) methods }

-- `Match`: the method as it is, then in upper case.
unfoldable pub methods_match : Methods → Text → Bool
unfolding set_has to_upper
methods_match m method =
    if is_empty m.set
    then true
    else if set_has m.set method
    then true
    else set_has m.set (to_upper method)
