-- ===== src/Platform.antt =====
-- What the program takes from its numeric and calendar libraries: IEEE floats and chrono timestamps.
-- They are parameters of the development; `Ieee` states the documented facts that proofs rely on.
mod Interface
pub mod Sample
pub use Interface.*
