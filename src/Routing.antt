-- ===== src/Routing.antt =====
-- How the gateway finds what a path names: extensions/exposition/source/RTD. `Segments` reads a
-- path and writes a template, `Tree` is the tree of nodes and routes, and what matches in it.
pub mod Segments
pub mod Tree
mod Tests
