-- ===== src/ExtProc/NodeId.antt =====
-- The parts of an Envoy node id (internal/server/extproc/processor.go).
use elchi_shield.Prelude.{false, ◌≡◌, refl, [], ◌∷◌, ◌++◌, some, All, ◌==◌}
use elchi_shield.Strings.{Text}
use elchi_shield.ExtProc.Recording.{cut_double_colon, parse_node_id}

-- No colon in the text.
abbrev pub HasNoColon : Text → Type 0
HasNoColon s = All (λ c. (c == b':') ≡ false) s

cut-append : (a s : Text) → HasNoColon a → cut_double_colon (a ++ (b':' ∷ b':' ∷ s)) ≡ some (a, s)
unfolding cut_double_colon
cut-append [] s h = refl
cut-append (c ∷ []) s (h, hs) = rw h refl
cut-append (c ∷ d ∷ a) s (h, hs) = rw (h, cut-append (d ∷ a) s hs, cut_double_colon) refl

-- A node id "listener::project::address" whose listener and project hold no colon is taken apart
-- into these three, also where the address holds colons, as an IPv6 address does.
pub parse_node_id-append :
    (listener project address : Text)
    → HasNoColon listener
    → HasNoColon project
    → parse_node_id (listener ++ (b':' ∷ b':' ∷ (project ++ (b':' ∷ b':' ∷ address))))
      ≡ (listener, project, address)
unfolding parse_node_id
parse_node_id-append listener project address h k =
    rw
      (
        cut-append listener (project ++ (b':' ∷ b':' ∷ address)) h,
        cut-append project address k,
        parse_node_id,
      )
      refl
