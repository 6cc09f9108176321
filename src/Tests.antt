-- ===== src/Tests.antt =====
-- The library's theorems at concrete inputs.
mod World
mod Sessions
mod Errors
mod Logins
mod Starts
mod Pages
mod Calls
mod Questions
mod Journeys
mod Rendering
mod Services
mod Fields
mod Views
