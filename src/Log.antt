-- ===== src/Log.antt =====
-- components/log_service/log_service.c with CONFIG_ENABLE_LOG_SERVICE: the line that is forwarded,
-- the cached resolver of the server, and the choice between forwarding and the console. The network
-- functions of ESP-IDF are parameters.
pub mod Line
pub mod Resolver
pub mod Output
mod Examples
