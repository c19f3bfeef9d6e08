-- ===== src/Codegen/Emit.antt =====
-- src/codegen_llvm.c: `codegen_emit_ir` with USE_LLVM 0, which puts the constants behind the header.
use sqale.Prelude.{ℕ, false, Option, none, some, [], ◌++◌, Bytes, codes, split_at}
use sqale.Ast.{Double}
use sqale.Codegen.Tree.{Trees}
use sqale.Codegen.Context.{Out, cg_context_new}
use sqale.Codegen.Text.{ir_text}
use sqale.Codegen.Escape.{consts_text}
use sqale.Codegen.Module.{CodegenOpts, cg_program}

-- the constants stand behind the module's header, if there are any
unfoldable pub with_globals : Bytes → Bytes → Bytes
with_globals [] ir = ir
with_globals globals ir = elim (split_at (codes "; Runtime") ir) [
  | none ↦ ir
  | some (header, rest) ↦ header ++ (globals ++ rest)
]

abbrev pub no_opts : CodegenOpts
no_opts = record {
  module_name = none;
  use_llvm = false;
  for_exe = false;
  opt_level = 0;
  emit_debug = false;
}

abbrev pub opts_or : Option CodegenOpts → CodegenOpts
opts_or none = no_opts
opts_or (some opts) = opts

abbrev pub module_text : (Double → Bytes) → Option (Out (Unit {0})) → Option Bytes
module_text show none = none
module_text show (some o) = some (with_globals (consts_text o.consts) (ir_text show o.code))

unfoldable pub codegen_emit_ir : (Double → Bytes) → Option CodegenOpts → Trees → Option Bytes
unfolding cg_program cg_context_new with_globals consts_text ir_text
codegen_emit_ir show opts program =
    module_text show (cg_program (opts_or opts) program cg_context_new)

-- Without LLVM there are no object files.
unfoldable pub codegen_emit_object : Trees → Option CodegenOpts → Bytes → ℕ
codegen_emit_object program opts path = 1
