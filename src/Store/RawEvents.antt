-- ===== src/Store/RawEvents.antt =====
-- internal/store/chain_raw_event.go: one table of raw events for each chain.
use address_monitor.Prelude.{Text, bytes, to_lower, ◌++◌}

-- tableNameForChain
unfoldable pub table_name_for_chain : Text → Text
table_name_for_chain chain = bytes "chain_raw_events_" ++ to_lower chain
