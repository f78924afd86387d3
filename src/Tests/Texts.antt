-- ===== src/Tests/Texts.antt =====
-- Node ids, paths and forwarded addresses at concrete inputs.
use elchi_shield.Prelude.{◌≡◌, refl, ◌∷◌, ◌++◌, ◌<◌, length, arith}
use elchi_shield.Strings.{Text, lit, split}
use elchi_shield.Matcher.Normalize.{normalize_path}
use elchi_shield.Stages.PreCheck.{forwarded_entry}
use elchi_shield.Stages.Forwarded.{parts, forwarded_entry-append}
use elchi_shield.ExtProc.Recording.{parse_node_id}
use elchi_shield.ExtProc.NodeId.{parse_node_id-append}

parse_node_id-append_example :
    parse_node_id (lit "in" ++ (b':' ∷ b':' ∷ (lit "p1" ++ (b':' ∷ b':' ∷ lit "::1"))))
    ≡ (lit "in", lit "p1", lit "::1")
unfolding lit
parse_node_id-append_example =
    parse_node_id-append (lit "in") (lit "p1") (lit "::1") (refl, (refl, tt)) (refl, (refl, tt))

-- An encoded traversal.
abbrev sly_path : Text
sly_path = lit "/a/%2e%2e//b/?q=/.."

sly_normal : normalize_path sly_path ≡ lit "/b/"
unfolding lit normalize_path
sly_normal = refl

many_entries : 0 < length (parts (lit "10.0.0.1") b',')
unfolding lit split
many_entries = omega arith

forwarded_entry-append_example :
    forwarded_entry 0 (lit "1.2.3.4" ++ (b',' ∷ lit "10.0.0.1"))
    ≡ forwarded_entry 0 (lit "10.0.0.1")
forwarded_entry-append_example =
    forwarded_entry-append 0 (lit "1.2.3.4") (lit "10.0.0.1") many_entries
