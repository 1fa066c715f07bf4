-- ===== src/Tests.antt =====
-- Runs of the theorems on concrete inputs, over fixed-point numbers and listed histograms.
mod Data
mod Engine
mod Fleet
mod History
mod Onset
mod Outer
mod Whole
