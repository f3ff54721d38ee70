-- ===== src/Python.antt =====
-- Python's dynamic values and exceptions, as far as the orchestrator handles them. A value is what
-- `json.loads` and `yaml.safe_load` return; JSON text is represented by the value that it
-- encodes.
pub mod Values
pub mod Errors
pub mod Show
pub mod Json
pub mod Operators
