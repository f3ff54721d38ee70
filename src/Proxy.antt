-- ===== src/Proxy.antt =====
-- orchestrator/app/proxy.py: the reverse proxy of the instances' RPC. FastAPI and httpx are parameters:
-- a request is its parts, and the upstream call is a function.
pub mod Forward
pub mod App
pub mod Headers
pub mod Inflight
pub mod Release
pub mod Isolation
pub mod Tests
