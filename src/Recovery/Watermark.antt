-- ===== src/Recovery/Watermark.antt =====
-- The transaction at which a database resumes after `recover`.
