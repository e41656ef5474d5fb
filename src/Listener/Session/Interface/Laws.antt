-- ===== src/Listener/Session/Interface/Laws.antt =====
-- session.go: the session does what the interface Session documents.
