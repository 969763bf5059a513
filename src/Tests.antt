-- ===== src/Tests.antt =====
-- The theorems at concrete inputs, and runs of the model that follow the unit tests of the source.
mod Values
mod Platform
mod Books
mod Publishers
mod Feeds
mod Systems
mod Universes
mod Sessions
mod Starts
mod Dispatches
mod Reports
mod Fixed
mod Scenes
mod Units
mod Streams
