-- ===== src/Spawn.antt =====
-- What a new session is started with: the environment of its child, Spawn/Env, and the words of a
-- command line that the server is given, Spawn/Split.
pub mod Env
pub mod Keyed
pub mod Parse
pub mod Merge
pub mod Child
pub mod Split
mod Tests
