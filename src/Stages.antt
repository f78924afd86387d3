-- ===== src/Stages.antt =====
-- internal/pipeline/stages: the concrete stages. What they take from packages that are not in the
-- repository, or from a detector that the server plugs in, is the record `Env`.
pub mod Orders
pub mod Env
pub mod PreCheck
pub mod Redact
pub mod Body
pub mod Decode
pub mod Waf
pub mod Catalog
pub mod Frame
pub mod Balance
pub mod Built
pub mod Flags
pub mod Results
pub mod Forwarded
