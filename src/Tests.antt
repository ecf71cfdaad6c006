-- ===== src/Tests.antt =====
-- Runs of the model, and its theorems at concrete inputs.
mod Platform
mod Tables
mod Wire
mod Storage
mod Commands
mod Client
mod Config
mod Strings
mod Events
mod Sessions
mod Talk
mod Terminal
mod Typed
mod Users
mod Args
mod Boot
mod Clients
mod Listing
