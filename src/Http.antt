-- ===== src/Http.antt =====
-- internal/adapter/http: the requests and answers of the API. gin's binding of JSON and of queries,
-- with its `binding` tags, is done before these functions; its failure is a `Bound` error.
pub mod Request
pub mod Response
pub mod Handlers
pub mod RateLimit
pub mod Monitoring
pub mod Middleware
pub mod Router
