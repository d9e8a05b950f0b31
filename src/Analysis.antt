-- ===== src/Analysis.antt =====
-- The module analysis: from a text to its terms.
pub mod StopWords
pub mod Analyzer
