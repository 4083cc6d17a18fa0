-- ===== src/Examples.antt =====
-- Concrete instances of the parameters, for the examples: a small crypto library, a small text
-- form of the stored structs, and key sets that are read from it.
mod Texts
mod Json
mod Streams
mod StreamRuns
mod SessionRuns
mod Crypto
mod KeySets
mod Runs
mod Encoders
mod CrypterRuns
mod ManagerRuns
mod Disks
mod CommandRuns
mod KeyRuns
mod TextRuns
