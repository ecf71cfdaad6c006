-- ===== src/Protocol.antt =====
-- src/builder.c and src/parser.c together: what one writes, the other reads.
pub mod Numbers
pub mod Lines
pub mod Values
pub mod RoundTrip
