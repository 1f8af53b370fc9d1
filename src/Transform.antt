-- ===== src/Transform.antt =====
-- The `transform` operator, internal/operator/transform: the rate limiter and the cache of
-- cache.go, the regular expression parser of parser.go, and its configuration, config.go.
pub mod Limiter
pub mod Fifo
pub mod Cache
pub mod Parser
pub mod Config
