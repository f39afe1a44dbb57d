-- ===== src/Cluster/Counting.antt =====
-- Counting the calls of a kind in a log.
use gobehost_operator.Prelude.{ℕ, ◌+◌, String, List, [], ◌∷◌}
use gobehost_operator.Cluster.Interface.{Call, Log}

abbrev pub count_calls : (Call → ℕ) → Log → ℕ
count_calls f [] = 0
count_calls f (c ∷ log) = f c + count_calls f log

abbrev pub is_update_server : Call → ℕ
is_update_server (Call.update_server _) = 1
is_update_server _ = 0

abbrev pub is_update_fleet : Call → ℕ
is_update_fleet (Call.update_fleet _) = 1
is_update_fleet _ = 0

-- The names of the GameServers deleted, the latest first.
abbrev pub deleted_names : Log → List String
deleted_names [] = []
deleted_names (Call.delete_server gs ∷ log) = gs.meta.name ∷ deleted_names log
deleted_names (_ ∷ log) = deleted_names log
