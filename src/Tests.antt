-- ===== src/Tests.antt =====
-- Concrete instances of the outside, and the theorems and operations at concrete inputs.
mod FakeRedis
mod FakeTable
mod FakeStore
mod FakeOutside
mod FakeMembers
mod FakeScores
mod ClaimTests
mod UploadTests
mod WorkerTests
mod OrgTests
mod GatewayTests
mod ToolTests
mod JobTests
mod FakeBackend
mod AuthTests
mod CreateTests
mod SweepTests
mod ProxyTests
mod SignupTests
