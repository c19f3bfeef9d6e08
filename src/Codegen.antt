-- ===== src/Codegen.antt =====
-- include/codegen.h and src/codegen_llvm.c: the generator of textual LLVM IR.
pub mod Tree
pub mod Chunks
pub mod Context
pub mod Pieces
pub mod Calls
pub mod Expr
pub mod Grows
pub mod Good
pub mod Scoped
pub mod Steps
pub mod Shape
pub mod Choices
pub mod Total
pub mod Llvm
pub mod Means
pub mod Operators
pub mod OpNames
pub mod Agrees
pub mod Passing
pub mod Runs
pub mod Branches
pub mod Conditional
pub mod Ready
pub mod Correct
pub mod Sees
pub mod Source
pub mod Matches
pub mod Moves
pub mod Evaluated
pub mod Sequences
pub mod Alike
pub mod Standard
pub mod EndToEnd
pub mod Text
pub mod Buffer
pub mod Escape
pub mod Decoded
pub mod Module
pub mod Emit
pub mod Programs
