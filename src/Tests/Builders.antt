-- ===== src/Tests/Builders.antt =====
-- The theorems on the builders and the conditions, at concrete objects.
use gobehost_operator.Reconciler.OneCondition.{Puts, setters_put}
use gobehost_operator.Reconciler.{
  new_condition, set_condition, set_fleet_condition, set_backup_condition,
}
use gobehost_operator.Kube.{condition_false}
use gobehost_operator.Tests.Backups.{backup_with}
use gobehost_operator.Prelude.{none}
use gobehost_operator.Kube.{StatefulSet}
use gobehost_operator.Adapter.{minecraft_adapter}
use gobehost_operator.Reconciler.{stateful_set_of}
use gobehost_operator.Tests.Samples.{sample_server, sample_fleet}

abbrev built : StatefulSet
built = stateful_set_of sample_server minecraft_adapter

setters_put_example :
    Puts
      (new_condition 7 1 "Paused" condition_false "No" "")
      sample_server.status.conditions
      (set_condition 7 sample_server "Paused" condition_false "No" "").status.conditions
    × Puts
        (new_condition 7 0 "Paused" condition_false "No" "")
        sample_fleet.status.conditions
        (set_fleet_condition 7 sample_fleet "Paused" condition_false "No" "").status.conditions
    × Puts
        (new_condition 7 0 "Paused" condition_false "No" "")
        (backup_with none).status.conditions
        (set_backup_condition 7
          (backup_with none)
          "Paused"
          condition_false
          "No"
          "").status.conditions
setters_put_example =
    setters_put 7 sample_server sample_fleet (backup_with none) "Paused" condition_false "No" ""
