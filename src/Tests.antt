-- ===== src/Tests.antt =====
-- Runs of the model on concrete data, and the theorems applied to it.
mod Data
mod Python
mod Registration
mod Members
mod Delivery
mod Submission
mod Limits
mod Accounts
mod Keys
mod Schema
