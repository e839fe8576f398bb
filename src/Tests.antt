-- ===== src/Tests.antt =====
-- Concrete runs of the theorems on the code of src/: a toy instance of the third-party functions,
-- and states to run on.
mod Toy
mod Runs
mod StoreRuns
mod IdentityRuns
mod LifetimeRuns
mod HandshakeRuns
mod ExchangeRuns
mod TalkRuns
mod GroupRuns
mod VaultRuns
mod TotpRuns
mod EnvelopeRuns
