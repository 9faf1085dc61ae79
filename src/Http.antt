-- ===== src/Http.antt =====
-- The HTTP client, module/http.c: texts and codes, the server's URL, the parsers of a reply, one
-- call, and the calls on remote files.
pub mod Base64
pub mod Url
pub mod Text
pub mod Server
pub mod Response
pub mod Json
pub mod Call
pub mod Remote
