-- ===== src/Kvs.antt =====
-- The key-value store that runs on Goxos (kvs/common and kvs/kvsd): its wire format and its handler.
pub mod Wire
pub mod Leb128
pub mod RoundTrip
pub mod Store
pub mod History
