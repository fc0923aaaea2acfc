-- ===== src/Tests.antt =====
-- Tests of the backend, the IR, the lexer, the scopes and the arena on concrete inputs, and the theorems at
-- such inputs.
mod BackendExamples
mod CodegenExamples
mod ScopeExamples
mod LexerExamples
mod ArenaExamples
mod JitExamples
mod ElfExamples
mod ParserExamples
