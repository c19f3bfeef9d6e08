-- ===== src/Tests/Alike.antt =====
-- An expression that is evaluated and compiled.
use sqale.Prelude.{Bytes}
use sqale.Runtime
use sqale.Runtime.{Value, FloatOps}
use sqale.Machine
use sqale.Machine.{Machine, Run}
use sqale.Builtins.{Outside}

abbrev outside : Outside
outside = record { native = λ f args. Machine.pure Value.unit; fabs = λ d. d }

abbrev no_modules : Bytes → Run (Unit {0})
no_modules x = Machine.pure tt
