-- ===== src/Output.antt =====
-- src/output: the writers of executable files.
pub mod File
pub mod ElfExec
