-- ===== src/Render/Document.antt =====
-- `Render` of internal/lima/config.go: the document that it gives back.
