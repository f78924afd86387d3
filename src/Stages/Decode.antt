-- ===== src/Stages/Decode.antt =====
-- internal/pipeline/stages/decode.go: the structural decoding of a Content-Encoded body.
use elchi_shield.Prelude.{
  ℕ, ◌-◌, ◌*◌, ◌^◌, ◌||◌, ◌++◌, Option, none, some, ltb, length, if◌then◌else◌,
}
use elchi_shield.Prelude.Int.{pos}
use elchi_shield.Strings.{Text, lit, text_eq, is_empty, to_lower, trim_space}
use elchi_shield.Decision.{severity_medium}
use elchi_shield.Policy.{if_enforcing}
use elchi_shield.Transaction.{Transaction, header, header_count, reserve_body}
use elchi_shield.Pipeline.{StageResult, continue_result}
use elchi_shield.Stages.Env.{Env, Stream}
use elchi_shield.Stages.PreCheck.{Step, deny_engine}

unfoldable pub max_decoded_body_bytes : ℕ
max_decoded_body_bytes = 8 * 2 ^ 20

-- `readBounded`: a reader that yields more than the bound, or fails before it, gives an error. (Past
-- the bound it is not read, so a failure there is not seen; the result is an error all the same.)
unfoldable pub read_bounded : Stream → Option Text
read_bounded r =
    if ltb max_decoded_body_bytes (length r.bytes)
    then none
    else if r.clean_end
    then some r.bytes
    else none

-- `decodeBody`: `none` is an error.
unfoldable pub decode_body : Env → Text → Text → Option Text
decode_body env enc body =
    let gzip : Option Text = elim (env.gzip body) [ none ↦ none | some r ↦ read_bounded r ] in
    let deflate : Option Text = elim (env.zlib body) [
      | none ↦ read_bounded (env.flate body)
      | some r ↦ read_bounded r
    ] in
    if text_eq enc (lit "gzip") || text_eq enc (lit "x-gzip")
    then gzip
    else if text_eq enc (lit "deflate")
    then deflate
    else none

abbrev undecodable : Transaction → Text → StageResult
undecodable tx reason =
    deny_engine tx (lit "body_decode") (lit "body.undecodable_encoding") reason severity_medium

-- The decoded body takes the place of the buffered one if the budget grants what it is longer by.
unfoldable pub charge_decoded : Transaction → Text → Transaction × StageResult
charge_decoded tx decoded =
    let extra = length decoded - length tx.body in
    let (tx', granted) = reserve_body tx (pos extra) in
    if ltb 0 extra
    then (if granted then (record tx' { body = decoded }, continue_result) else (
      tx',
      deny_engine tx' (lit "body_decode") (lit "body.decode_budget")
          (lit "decoded body exceeds the in-flight inspection budget") severity_medium,
    ))
    else (record tx { body = decoded }, continue_result)

unfoldable pub decoded_step : Transaction → Text → Option Text → Transaction × StageResult
decoded_step tx enc none =
    (tx, undecodable tx (lit "body uses an encoding that cannot be inspected: " ++ enc))
decoded_step tx enc (some b) = charge_decoded tx b

-- The stage behind the header: `enc` is the first Content-Encoding.
unfoldable pub decode_as : Env → Text → Step
decode_as env first tx =
    let enc = to_lower (trim_space first) in
    let decoded = decoded_step tx enc (decode_body env enc tx.body) in
    if ltb 1 (header_count tx (lit "content-encoding"))
    then (tx, undecodable tx (lit "body uses stacked content-encodings that cannot be inspected"))
    else if is_empty enc || text_eq enc (lit "identity")
    then (tx, continue_result)
    else if is_empty tx.body
    then (tx, continue_result)
    else decoded

unfoldable pub decode_found : Env → Option Text → Step
decode_found env none tx = (tx, continue_result)
decode_found env (some first) tx = decode_as env first tx

-- `bodyContentDecode.Process`.
unfoldable pub body_content_decode : Env → Step
body_content_decode env tx =
    if_enforcing tx.policy (tx, continue_result)
      λ p. decode_found env (header tx (lit "content-encoding")) tx
