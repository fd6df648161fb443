-- ===== src/Examples.antt =====
-- Runs of the model on concrete inputs.
pub mod Box
mod Paths
pub mod Processes
mod Logs
mod Requests
pub mod Commands
mod Repository
pub mod Clients
pub mod Watching
pub mod Browsing
mod Acting
pub mod Diffing
pub mod Serving
mod Calling
mod Writing
