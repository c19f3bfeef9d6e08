-- ===== src/Lib.antt =====
-- SQALE is a typed language with brackets for syntax: a lexer and a parser turn the text of a program into
-- nodes, macros rewrite them, a type checker annotates them, and an evaluator or an LLVM back end runs them
-- on a small runtime with channels and a mark and sweep collector.
--
-- Which file models what:
--   Prelude     names and lemmas that all files share
--   Lexer       src/lexer.c, include/token.h: `lexer_next` and its helpers, one function for each; a
--               pointer into the buffer is an offset. Lexer/ holds the cursor's invariant (Moves),
--               lines and columns (Place), the tokens (Tokens, Munch) and termination (Total, Endless)
--   Ast         include/ast.h: nodes as a tree. Ast/Items has the array of a list's items of src/ast.c, in which
--               Ast/Room finds room for each push, and Ast/Powers the test that tells when it grows
--   Parser      src/parser.c, include/parser.h: `parser_init`, `parse_form`, `parse_list` and
--               `parse_toplevel`, over the lexer. `strtod` of the C library is a parameter. Parser/ holds
--               termination (Total) and the grammar that the parser reads (Grammar)
--   Types       include/type.h and src/type.c: `ty_eq`; Types/Text has `ty_kind_name` and `ty_to_string`
--   Buffers     src/vec.c, include/vec.h: the growing array; Buffers/Growth (doubling), Buffers/Vectors (items)
--   Arena       src/arena.c, include/arena.h: the arenas that nodes are allocated in; Arena/Masks (rounding up
--               with a mask), Arena/Regions (the pieces that are handed out)
--   Str         src/str.c, include/str.h: the growing string; whether `realloc` succeeds is an argument
--   Env         src/env.c, include/env.h: environments in a store, since closures and scopes share them.
--               Env/Chains (the chain of parents), Env/Scoping (what a binding changes)
--   Macros      src/macro.c: `m_when`, `m_cond`, `m_thread`; Macros/User collects the macros of a program,
--               Macros/Values turns nodes into values and back, Macros/Expand expands. Macros/Clauses says
--               what the forms run
--   Channel     src/channel.c (the pthread half) and include/thread.h: a call's stretch under the mutex is one
--               step; what a condition variable brings is a list of wake-ups
--   Maps        the map of src/runtime.c, with linear probing: Maps/Probing (where a search ends), Maps/Lookup
--               (the invariant), Maps/Finite and Maps/Contract (a map as a finite function)
--   Runtime     include/value.h and functions of src/runtime.c: Runtime/Arith, Runtime/Compare and
--               Runtime/Strings, Runtime/Numbers and
--               Runtime/Print hold the code; Runtime/Division, Runtime/Order, Runtime/Slices, Runtime/Digits,
--               Runtime/Search and Runtime/Words the theorems. The arithmetic of double is a parameter
--   Gc          src/gc.c, include/gc.h: objects by address, with the list of freed addresses
--   Forms       src/eval.c: the names of the special forms, and `parse_type_node`
--   TypeCheck   src/eval.c: `typecheck_node` and `typecheck_list`, one function for each form. TypeCheck/Rules
--               states the typing rules; Result, Bodies, Blocks and Sound set the checker beside them; Ends
--               and Depth are about its fuel, Extends about what it adds to its environment
--   Machine     include/runtime.h and include/value.h: environments, boxes and objects, and code that changes them
--   Collections src/runtime.c: vectors, lists, symbols and structs; Collections/Slots has the array
--               of a vector, and Collections/Options options and results
--   Builtins    src/eval.c: the table of `vm_new`. Runtime/Bits has the functions on bits that it names
--   Eval        src/eval.c: `eval_node`, `eval_list` and `vm_call_closure`; Eval/Items has `qq_eval` and what
--               the forms share; Valid, Changes, Safe, Keeping and Names are about what an evaluation keeps of
--               environments, boxes and closures
--   Program     src/eval.c: `vm_new`, `eval_program` and `eval_form`; Program/WellTyped sets a whole run beside
--               the typing rules, Program/NewVm is about the machine of `vm_new`, and Program/Keeping about its
--               library. Program/Imports finds the file of
--               a module; Candidates, Unloaded and Loading say which, and why imports end
--   Codegen     src/codegen_llvm.c, include/codegen.h: the generator of textual LLVM IR. Codegen/Tree (nodes
--               with types), Chunks and Text (what is appended, and its text), Context (counters and
--               scopes), Pieces, Calls and Expr (the code of an expression), Module and Emit (functions,
--               programs and the file), Buffer and Escape (the buffers, string constants). Shape, Grows,
--               Good, Scoped, Steps, Choices, Total and Programs are about where generation ends; Llvm runs
--               the code, Means says what an expression means, and Operators, OpNames, Agrees, Passing, Runs,
--               Branches, Conditional, Ready and Correct set the two side by side. Source, Sees, Matches,
--               Moves, Evaluated, Sequences and Alike set src/eval.c beside it, Standard a new VM, and EndToEnd
--               draws both together
--   Compiled    src/runtime_llvm.c: the functions that compiled programs call; Compiled/Vectors is about vectors
--   Tests       the theorems at concrete inputs, and runs of the definitions
--
-- How they meet: the parser holds a Lexer and one token of lookahead, and calls `lexer_next` whenever it
-- moves on; it builds the nodes of Ast, which Macros rewrites: a user macro is a closure that Eval runs in a
-- machine of its own. Program gives them to TypeCheck, form by form, and
-- then to Eval, whose calls reach the functions of Builtins through a record, Library.
--
-- Fuel: the lexer's and the parser's loops take fuel, and give none when it is spent. The parser gives each
-- call of the lexer one more than the buffer's length (`lex_fuel`), which is enough on a buffer that
-- does not end in a symbol; 2 * length + 5 is enough for the parser itself. On a buffer that ends in
-- a symbol no fuel is enough, since the C loop does not end. A search through a map's slots takes at most
-- `cap` steps, and never ends on a full map without the key. A lookup takes at most as many steps as there
-- are environments. The expansion of macros takes the fuel that it is given, since a macro's output is
-- expanded again. The checker's fuel bounds the depth of a form, and the number of its nodes is enough. The
-- evaluator's fuel bounds how deep evaluations nest and the rounds of a loop: a program may need any
-- amount, or may not end. An import takes more fuel than there are paths of files, which is enough.
--
-- Not modelled: input and output, the mathematics of double in src/runtime.c, `spawn`, the
-- half of src/codegen_llvm.c that calls the C interface of LLVM (USE_LLVM 1), src/main.c and src/thread.c.
-- In Codegen `%g` of the C library is a parameter, and the type annotations of the nodes are given. Codegen/Llvm
-- runs numbers, truth values, branches and phi, not calls; it checks types and phi in the code that
-- runs, and Codegen/Means leaves out the expressions whose other code LLVM would refuse.
-- Memory is taken to be available except in Buffers and Str. Objects of the evaluator and of macros are never
-- collected, which is so in the C code while they take at most 1 MiB, the first threshold of `gc_alloc`;
-- Gc has the collection itself. There the bytes are counted and the collector's callback is the list
-- of the addresses that it marks. The evaluator calls maps and channels through a parameter, since their
-- objects are modelled apart. Types in the environments of a running program are left out: the evaluator
-- never reads them. Imports are set apart from evaluation: what a file asks for while it is loaded is a
-- parameter, and loading a module is one in Program.
pub mod Prelude
pub mod Lexer
pub mod Ast
pub mod Parser
pub mod Types
pub mod Env
pub mod Buffers
pub mod Arena
pub mod Str
pub mod Forms
pub mod TypeCheck
pub mod Macros
pub mod Channel
pub mod Gc
pub mod Runtime
pub mod Maps
pub mod Machine
pub mod Collections
pub mod Builtins
pub mod Eval
pub mod Program
pub mod Codegen
pub mod Compiled
pub mod Tests
