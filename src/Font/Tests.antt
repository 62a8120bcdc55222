-- ===== src/Font/Tests.antt =====
-- Runs of the lookup of a font.
