-- ===== src/Tests.antt =====
-- Runs of the model on small inputs, and the theorems at inputs that meet their hypotheses.
mod Decimal
mod Samples
mod Memory
mod Datasets
mod Files
mod Serving
mod Together
mod Counting
mod Building
mod Deployed
mod Running
mod Reporting
mod Lifetime
mod PlainLines
mod Generated
mod Endings
