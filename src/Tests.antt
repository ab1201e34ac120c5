-- ===== src/Tests.antt =====
-- Witnesses of the theorems at concrete inputs, and runs of the code.
mod Samples
mod Stores
mod Tables
mod Runs
mod Confs
mod Tails
mod Webs
mod Details
mod Receivers
mod Starts
mod Journeys
mod Admissions
mod Databases
mod Setups
mod Generated
