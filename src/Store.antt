-- ===== src/Store.antt =====
-- The services' dependencies, as interfaces over an abstract outside world `W`: Redis, the object
-- store and what they answer. A read leaves the world as it is; a write returns its result and the
-- new world. What a theorem needs of them is a named hypothesis, with the laws of the child modules.
mod Faults
pub mod Redis
pub mod Objects
pub mod Table
pub use Faults.*
