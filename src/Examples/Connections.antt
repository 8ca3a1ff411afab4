-- ===== src/Examples/Connections.antt =====
-- The theorems on the server's bookkeeping of connections, at two clients and a listener.
use pyomb.Prelude.{◌≡◌, true, refl, arith}
use pyomb.Simulators.Connections
use pyomb.Simulators.Connections.{
  Settings, has, opened, accept_connection, forget, sweep_inactive, sweep_list, sweep_one, lookup,
  assign,
}
use pyomb.Simulators.Connections.Registers.{keys}
use pyomb.Simulators.Connections.Steps.{
  Steps, accepts, sweeps, stays, follows, Consistent, Steps-Consistent,
}
use pyomb.Simulators.Connections.Sweep.{recent, sweep_inactive-recent}

abbrev settings : Settings
settings = record {
  srv = 3;
  connection_limit = 2;
  inactive_timeout = 60;
  process_connections = true;
}

abbrev one : Connections.Connections
one = accept_connection settings 4 0x0A 100 (opened settings)

abbrev two : Connections.Connections
two = accept_connection settings 5 0x0B 150 one

-- Two clients, and a sweep that drops the first.
passes : Steps settings (opened settings) (sweep_inactive settings 170 two)
unfolding opened has accept_connection
passes =
    follows _ _ _
      (follows _ _ _ (follows _ _ _ (stays _) (accepts _ 4 0x0A 100 refl))
        (accepts _ 5 0x0B 150 refl))
      (sweeps _ 170)

Steps-Consistent_example : Consistent settings (sweep_inactive settings 170 two)
Steps-Consistent_example = Steps-Consistent settings (sweep_inactive settings 170 two) refl passes

two-Consistent : Consistent settings two
unfolding opened has accept_connection assign
two-Consistent = (refl, refl, refl, (refl, (refl, (refl, tt))), omega arith)

sweep_inactive-recent_example :
    ((sweep_inactive settings 170 two).last_activity ≡ recent settings 170 two.last_activity)
    × ((sweep_inactive settings 170 two).clients ≡ keys (recent settings 170 two.last_activity))
    × Consistent settings (sweep_inactive settings 170 two)
sweep_inactive-recent_example = sweep_inactive-recent settings 170 two two-Consistent
