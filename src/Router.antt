-- ===== src/Router.antt =====
-- router.py: the proxy in front of the engines.
pub mod Affinity
pub mod Headers
pub mod Extract
pub mod Proxy
pub mod Sse
pub mod Models
