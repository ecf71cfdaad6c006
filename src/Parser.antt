-- ===== src/Parser.antt =====
-- src/parser.c: the parser of requests and replies, from the byte level up.
pub mod Scan
pub mod Run
pub mod Objects
pub mod Commands
