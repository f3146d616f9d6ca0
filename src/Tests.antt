-- ===== src/Tests.antt =====
-- Runs of the model on concrete inputs, and each theorem at an input that meets its hypotheses.
mod Samples
mod NetRuns
mod PolicyRuns
mod Doubles
mod Witnesses
