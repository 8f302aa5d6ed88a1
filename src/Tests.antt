-- ===== src/Tests.antt =====
-- The theorems at concrete inputs, over a small world outside the program.
mod World
mod Worker
mod Repository
mod Middleware
mod Service
mod Sessions
mod Handler
mod Accounts
mod Dispatch
mod Flow
mod Router
mod Config
mod Commands
mod Tokens
mod Wiring
mod System
mod Settles
mod Requests
mod Together
