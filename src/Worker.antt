-- ===== src/Worker.antt =====
-- The job worker of the PDF services (optimize-pdf/internal/worker), as the effects of one delivered
-- message in their order. What the outside answers is a parameter: a record of the results of its
-- calls, for this delivery.
pub mod Effects
pub mod Failure
pub mod Outside
pub mod Scratch
pub mod Cache
pub mod Process
pub mod Attempts
pub mod Served
pub mod Protocol
pub mod Settlement
pub mod Mirror
