-- ===== src/Tests.antt =====
-- The theorems at concrete inputs, and runs of the definitions.
mod Data
mod Configs
mod Runs
mod Lifecycle
mod Writes
mod Submissions
mod Life
mod Teardowns
mod Numbers
mod Overlaps
mod Reruns
mod Histories
mod Systems
mod Ledgers
mod Unloads
mod Mutexes
