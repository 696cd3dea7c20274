-- ===== src/Glob.antt =====
-- `fnmatch.fnmatchcase` of the standard library, through which `gate.py` matches requests.
pub mod Defs
pub mod Relation
mod Tests
