-- ===== src/Tests.antt =====
-- Runs of the handlers on small states, one for each theorem that has conditions. The services of a
-- run are concrete: digests and identifiers are numbers of a text, the cache is a list of entries.
mod Cache
mod Sessions
mod Accounts
mod Journal
mod Trading
mod Brokers
