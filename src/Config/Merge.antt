-- ===== src/Config/Merge.antt =====
-- internal/config/merge.go: the merge of the files of a directory.
use elchi_shield.Prelude.{
  Bool, true, false, List, [], ◌∷◌, ◌++◌, Option, none, some, if◌then◌else◌, ltb, ◌==◌, map,
}
use elchi_shield.Strings.{Text, is_empty}
use elchi_shield.Config.{PolicySpec, Domain, File, empty_spec, set_over, insert_keys}

pub record ParsedFile (E F : Type 0) : Type 0 where
  pub name : Text
  pub file : Option (File E F)

pub record MergedDomain (E F : Type 0) : Type 0 where
  pub domain : Domain E F
  pub source : Text

pub record MergedConfig (E F : Type 0) : Type 0 where
  pub file_defaults : PolicySpec E F
  pub domains : List (MergedDomain E F)
  pub sources : List Text
  pub excludes : List Text

-- `unionStrings`.
unfoldable pub union_strings : List Text → List Text → List Text
unfolding insert_keys
union_strings a b = insert_keys [] (a ++ b)

-- `overlaySpec`.
unfoldable pub overlay_spec : {E F : Type 0} → PolicySpec E F → PolicySpec E F → PolicySpec E F
unfolding union_strings
overlay_spec out over = record {
  mode = set_over over.mode out.mode;
  fail_mode = set_over over.fail_mode out.fail_mode;
  inspect_request_body = set_over over.inspect_request_body out.inspect_request_body;
  inspect_response_body = set_over over.inspect_response_body out.inspect_response_body;
  max_request_body_bytes = set_over over.max_request_body_bytes out.max_request_body_bytes;
  max_response_body_bytes = set_over over.max_response_body_bytes out.max_response_body_bytes;
  max_header_bytes = set_over over.max_header_bytes out.max_header_bytes;
  timeout = set_over over.timeout out.timeout;
  log_level = set_over over.log_level out.log_level;
  sampling_rate = set_over over.sampling_rate out.sampling_rate;
  anomaly_threshold = set_over over.anomaly_threshold out.anomaly_threshold;
  skip_checks =
      if is_empty over.skip_checks
      then out.skip_checks
      else union_strings out.skip_checks over.skip_checks;
  pipeline = set_over over.pipeline out.pipeline;
  checks = record {
    headers = set_over over.checks.headers out.checks.headers;
    body = set_over over.checks.body out.checks.body;
  };
  engines = set_over over.engines out.engines;
}

-- `a < b` on strings: by their bytes.
unfoldable pub text_ltb : Text → Text → Bool
text_ltb a [] = false
text_ltb [] (d ∷ b) = true
text_ltb (c ∷ a) (d ∷ b) =
    let rest = text_ltb a b in if ltb c d then true else if c == d then rest else false

unfoldable pub insert_file :
    {E F : Type 0} → ParsedFile E F → List (ParsedFile E F) → List (ParsedFile E F)
unfolding text_ltb
insert_file f [] = f ∷ []
insert_file f (g ∷ gs) =
    let rest = insert_file f gs in if text_ltb g.name f.name then g ∷ rest else f ∷ g ∷ gs

-- `sort.Slice` by the names; files of a directory have different names, so that the order is one.
unfoldable pub sort_files : {E F : Type 0} → List (ParsedFile E F) → List (ParsedFile E F)
unfolding insert_file
sort_files [] = []
sort_files (f ∷ fs) = insert_file f (sort_files fs)

-- One round of the loop of `Merge`, on a file with contents.
unfoldable pub add_file : {E F : Type 0} → MergedConfig E F → Text → File E F → MergedConfig E F
unfolding overlay_spec insert_keys
add_file out name f = record {
  file_defaults = overlay_spec out.file_defaults f.spec.defaults;
  domains = out.domains ++ map (λ d. record { domain = d; source = name }) f.spec.domains;
  sources = out.sources ++ (name ∷ []);
  excludes = insert_keys out.excludes f.spec.exclude;
}

-- One round of the loop of `Merge`: a nil file is passed over.
unfoldable pub merge_file : {E F : Type 0} → MergedConfig E F → ParsedFile E F → MergedConfig E F
unfolding add_file
merge_file out pf = elim pf.file [ none ↦ out | some f ↦ add_file out pf.name f ]

unfoldable pub merge_files :
    {E F : Type 0} → MergedConfig E F → List (ParsedFile E F) → MergedConfig E F
unfolding merge_file
merge_files out [] = out
merge_files out (pf ∷ pfs) = merge_files (merge_file out pf) pfs

abbrev pub empty_config : {E F : Type 0} → MergedConfig E F
empty_config = record { file_defaults = empty_spec; domains = []; sources = []; excludes = [] }

-- `Merge`.
unfoldable pub merge : {E F : Type 0} → List (ParsedFile E F) → MergedConfig E F
unfolding merge_files sort_files
merge files = merge_files empty_config (sort_files files)
