-- ===== src/Chain/TronFetcher/Laws.antt =====
-- The fetcher's filter against that of the parser.
