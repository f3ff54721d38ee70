-- ===== src/SuiRpc.antt =====
-- orchestrator/app/sui_rpc.py: the JSON-RPC client of an instance. The HTTP client is a parameter.
pub mod Client
pub mod Events
