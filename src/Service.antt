-- ===== src/Service.antt =====
-- examples/k8s_service.rs: the service that puts the crate's parts together.
mod Setup
mod Shutdown
pub mod Earlier
pub mod Draining
pub mod Wiring
pub mod Ready
pub mod Probes
pub mod Phases
pub mod Routing
pub mod Run
pub mod Startup
pub mod Life
pub mod Ending
pub mod Serves
pub mod Scraped
pub use Setup.{AtomicBool, App}
unfoldable pub use Setup.{load, initialized_check, draining_check, register_cache, setup, app}
pub use Shutdown.{Signals}
unfoldable pub use Shutdown.{first_signal, shutdown_signal}
