-- ===== src/Http.antt =====
-- src/http: the server that answers image requests.
pub mod Api
pub mod Acceptor
pub mod Lifecycle
pub mod Chunked
pub mod Handler
pub mod Service
pub mod Tests
