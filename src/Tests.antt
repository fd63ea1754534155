-- ===== src/Tests.antt =====
-- The program's own test cases, run on the definitions, and every theorem at a concrete input.
mod Books
mod Fixtures
mod Runs
mod Assoc
mod Heap
mod Toy
mod Messages
mod Network
mod AppRuns
mod Started
mod Storage
mod Witnesses
