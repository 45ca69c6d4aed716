-- ===== src/Tests.antt =====
-- Runs of the model on small inputs, and the theorems at these inputs.
mod Data
mod Limits
mod Keys
mod Credits
mod Requests
mod Replays
mod Routes
mod Resources
mod Options
mod Refreshes
mod Trials
mod Bodies
mod Consoles
mod Imports
mod Tokens
mod Trails
