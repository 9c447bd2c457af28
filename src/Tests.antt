-- ===== src/Tests.antt =====
-- Runs of the program's parts, and each theorem at concrete data.
mod Instances
mod Ban
mod RateLimit
mod Bandwidth
mod Health
mod Waf
mod Proxy
mod Handlers
mod Routing
mod Config
mod Server
mod Main
mod WebSocket
mod Sessions
mod Loaded
