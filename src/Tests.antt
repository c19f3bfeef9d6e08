-- ===== src/Tests.antt =====
-- The theorems at concrete inputs, and runs of the definitions.
mod Reading
mod Running
mod Library
mod Scopes
mod Expanding
mod Importing
mod Growing
mod Typing
mod Evaluating
mod Generating
mod Alike
mod Converting
