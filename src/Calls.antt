-- ===== src/Calls.antt =====
-- The calls of functions (lib/plsql.go): the PL/SQL block that calls a function, and the Go code that moves its arguments
-- into the parameters of the call and back.
pub mod Conversions
pub mod Parts
pub mod Prepare
pub mod Block
