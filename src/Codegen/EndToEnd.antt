-- ===== src/Codegen/EndToEnd.antt =====
-- src/eval.c and src/codegen_llvm.c: an expression in a new VM, and compiled in a new context.
use sqale.Prelude.{refl, none, [], arith}
use sqale.Machine.{Machine}
use sqale.Codegen.Tree.{Tree}
use sqale.Codegen.Context.{cg_context_new, cg_scope_lookup}
use sqale.Codegen.Llvm.{start}
use sqale.Codegen.Means.{Means}
use sqale.Codegen.Ready.{Ready}
use sqale.Codegen.Source.{depth}

pub no_names : Ready [] cg_context_new (start (λ r. none))
unfolding cg_context_new cg_scope_lookup
no_names = record { going = refl; depth = omega arith; agrees = λ x v h. cc h }
