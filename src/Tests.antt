-- ===== src/Tests.antt =====
-- Runs of the definitions and examples of the theorems.
mod Samples
mod Runs
mod TlsExamples
mod FeedExamples
mod QuicExamples
mod LoaderExamples
mod RingExamples
mod LiveExamples
