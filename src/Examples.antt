-- ===== src/Examples.antt =====
-- Tests of the definitions, and the theorems at concrete inputs.
mod Data
mod Evaluation
mod Outputs
mod Stages
mod Calls
mod Decoding
mod Models
mod Published
mod Fits
mod Agents
mod Results
mod Texts
