-- ===== src/Tests.antt =====
-- The program run on concrete inputs, and its theorems there.
mod World
mod Runs
mod Applying
mod Files
mod Parts
mod Chains
mod Commands
mod Rereading
mod Whole
mod Succeeding
