-- ===== src/Tests.antt =====
-- Runs of the modelled code on small inputs, and each theorem at an input that meets its hypotheses.
mod Mounts
mod Registries
mod Memory
mod Routers
mod Tables
mod Pages
mod Trees
mod Channels
mod Streams
mod Shell
mod Topics
mod Keys
mod Clock
mod Patterns
