-- ===== src/MentionParser.antt =====
-- The RDF mention parser: ers/rdf_mention_parser. RDFLib is the record `Rdf`.
pub mod Paths
pub mod Config
pub mod Parse
pub mod Reading
pub mod Merge
pub mod Extraction
pub mod Documented
