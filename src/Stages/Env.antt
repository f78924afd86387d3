-- ===== src/Stages/Env.antt =====
-- What the stages call outside the repository, and the values injected into them (`stages.Deps`).
use elchi_shield.Prelude.{ℕ, Bool, List, Option}
use elchi_shield.Prelude.Int.{ℤ}
use elchi_shield.Strings.{Text}

-- `sensitive.Match`: the bytes from `start` up to `end` are of the kind.
pub record Match : Type 0 where
  pub start : ℕ
  pub end : ℕ
  pub kind : Text

-- `SensitiveDataDetector`: `scan` gives the kind of what it found.
pub record Detector : Type 0 where
  pub scan : Text → Text → Option Text
  pub matches : Text → List Match

-- What a decompressor's reader yields: its bytes, and whether it ends without an error.
pub record Stream : Type 0 where
  pub bytes : Text
  pub clean_end : Bool

pub record Env : Type 0 where
  -- `canonIP` on a text that is not empty: net/netip parses and prints; "" for what is no address.
  pub canon_ip : Text → Text
  -- `json.Valid`.
  pub json_valid : Text → Bool
  -- `mime.ParseMediaType`: the media type, or an error.
  pub media_type : Text → Option Text
  -- `gzip.NewReader` and `zlib.NewReader`, which may refuse the input, and `flate.NewReader`.
  pub gzip : Text → Option Stream
  pub zlib : Text → Option Stream
  pub flate : Text → Stream
  -- `Deps`.
  pub default_allow : Bool
  pub detector : Option Detector
  pub trusted_hops : ℤ
