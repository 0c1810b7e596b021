-- ===== src/Tests.antt =====
-- The properties applied to concrete states of the program.
mod Store
mod Poll
mod Limits
mod Runs
mod Plugin
mod Creation
mod Ends
mod Views
mod Start
mod Loop
