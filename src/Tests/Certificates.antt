-- ===== src/Tests/Certificates.antt =====
-- Forwarded client certificates, at concrete inputs.
use elchi_shield.Prelude.{true, ◌≡◌, refl, [], ◌∷◌, ◌++◌, some}
use elchi_shield.Strings.{
  Text, lit, is_space, trim_space, trim_left, to_lower, lower_byte, cut, text_eq, set_has, contains,
}
use elchi_shield.Decision.{no_verdict}
use elchi_shield.Engine.Xfcc.{
  Engine, advance, no_element, parse_element, inspect_header, inspect_value, last_matches, matches,
  parse, split_top, read_pairs, read_pair, set_pair, unquote, new, Config,
}
use elchi_shield.Engine.Xfcc.Quoted.{quote, parse_element-quote}

abbrev one_hash : Config
one_hash = record {
  header_name = [];
  require_present = true;
  uris = [];
  dns_names = [];
  subjects = [];
  hashes = lit "AB" ∷ [];
}

abbrev an_engine : Engine
an_engine = new one_hash

-- An element of the client, with a quoted comma, in front of the one of Envoy.
abbrev forged : Text
forged = lit "Hash=ab;Subject=\"CN=a,O=b\""

abbrev verified : Text
verified = lit "Hash=cd"

-- A client that leaves a quote open keeps the comma of Envoy, and its own hash decides.
abbrev unbalanced : Text
unbalanced = lit "Hash=ab;Subject=\""

unbalanced_passes : inspect_header an_engine (some (unbalanced ++ (b',' ∷ verified))) ≡ no_verdict
unfolding inspect_value last_matches matches parse parse_element read_pairs read_pair set_pair
    unquote split_top advance cut trim_space trim_left to_lower lower_byte is_space text_eq set_has
    contains lit new
unbalanced_passes = refl

abbrev tricky : Text
tricky = lit "CN=a\";Hash=ab\\"

parse_element-quote_example :
    parse_element (lit "Subject=" ++ quote tricky) ≡ record no_element { subject = tricky }
parse_element-quote_example = parse_element-quote tricky
