-- ===== src/Api.antt =====
-- service/api: the HTTP handlers on top of service/ops, and the state behind them.
pub mod AddrSet
pub mod Convert
pub mod NetIo
pub mod Routes
pub mod ServerWrap
pub mod Serving
