-- ===== src/Tests.antt =====
-- Runs on concrete inputs, and each theorem at an input that meets its hypotheses.
mod Matching
mod Store
mod Payment
mod Serving
mod Controlling
mod Patching
mod Compiling
mod Reconciling
mod Settling
mod Integrating
mod Paying
mod Copying
