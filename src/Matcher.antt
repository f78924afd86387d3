-- ===== src/Matcher.antt =====
-- internal/matcher: the compiled matchers of the request path. Each child models one file.
pub mod Host
pub mod Method
pub mod ContentType
pub mod Path
pub mod Header
pub mod Normalize
