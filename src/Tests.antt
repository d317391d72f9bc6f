-- ===== src/Tests.antt =====
-- Runs of the definitions at concrete inputs.
mod Walking
mod Running
mod Remaking
mod HashTable
mod Lists
mod Conditional
mod Shuffle
mod Patterns
mod Patsubst
mod Logic
mod Select
mod Rules
mod Commands
mod Variables
mod Definitions
mod Interning
mod Quoting
mod Foreach
