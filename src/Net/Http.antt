-- ===== src/Net/Http.antt =====
-- ham/net/http: requests, their parser, responses and the server's handlers.
pub mod HeaderMap
pub mod Request
pub mod Context
pub mod Response
pub mod Server
