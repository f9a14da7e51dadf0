-- ===== src/Session.antt =====
-- The sessions of session/: the registry of the streams that are published and watched,
-- and the candidates of a session.
pub mod Maps
pub mod RemoteCandidates
pub mod StreamRegistry
