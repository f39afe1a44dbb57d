-- ===== src/Backup/Answers.antt =====
-- What follows the results of the backup controller's own steps.
use gobehost_operator.Prelude.{String, Option, none, some}
use gobehost_operator.Cluster.{
  ◌>>=◌, ApiError, not_found, conflict, other_error, Response, ok, err, M, Call,
}
use gobehost_operator.Cluster.Footprint.{Makes, Makes-answer, Makes-bind}
use gobehost_operator.Api.{GameServerBackup}
use gobehost_operator.Reconciler.{BackupConfig}
use gobehost_operator.Backup.Values.{
  Target, Storage, ClaimCheck, claim_bound, claim_missing, claim_failed, target, no_target,
  target_failed, storage, no_storage, storage_failed,
}

module _ {B : Type 0} {P : Call → Type 0} where
  pub Makes-reading :
      {A : Type 0} (m : M (Response A)) (f : Response A → M B)
      → Makes P m
      → ((a : A) → Makes P (f (ok a)))
      → Makes P (f (err not_found))
      → Makes P (f (err conflict))
      → Makes P (f (err other_error))
      → Makes P (m >>= f)
  Makes-reading m f hm ha hn hc ho = Makes-answer m f hm ha errors
    where
      errors : (e : ApiError) → Makes P (f (err e))
      errors not_found = hn
      errors conflict = hc
      errors other_error = ho

  pub Makes-failure :
      (m : M (Option ApiError)) (f : Option ApiError → M B)
      → Makes P m
      → Makes P (f none)
      → ((e : ApiError) → Makes P (f (some e)))
      → Makes P (m >>= f)
  Makes-failure m f hm hn hs = Makes-bind m f hm cases
    where
      cases : (r : Option ApiError) → Makes P (f r)
      cases none = hn
      cases (some e) = hs e

  pub Makes-target :
      (m : M Target) (f : Target → M B)
      → Makes P m
      → ((kind name : String) → Makes P (f (target kind name)))
      → Makes P (f no_target)
      → ((e : ApiError) → Makes P (f (target_failed e)))
      → Makes P (m >>= f)
  Makes-target m f hm ht hn he = Makes-bind m f hm cases
    where
      cases : (r : Target) → Makes P (f r)
      cases (target kind name) = ht kind name
      cases no_target = hn
      cases (target_failed e) = he e

  pub Makes-storage :
      (m : M Storage) (f : Storage → M B)
      → Makes P m
      → ((cfg : BackupConfig) → Makes P (f (storage cfg)))
      → ((b : GameServerBackup) → Makes P (f (no_storage b)))
      → ((e : ApiError) → Makes P (f (storage_failed e)))
      → Makes P (m >>= f)
  Makes-storage m f hm hs hn he = Makes-bind m f hm cases
    where
      cases : (r : Storage) → Makes P (f r)
      cases (storage cfg) = hs cfg
      cases (no_storage b) = hn b
      cases (storage_failed e) = he e

  pub Makes-claim :
      (m : M ClaimCheck) (f : ClaimCheck → M B)
      → Makes P m
      → Makes P (f claim_bound)
      → Makes P (f claim_missing)
      → ((e : ApiError) → Makes P (f (claim_failed e)))
      → Makes P (m >>= f)
  Makes-claim m f hm hb hn he = Makes-bind m f hm cases
    where
      cases : (r : ClaimCheck) → Makes P (f r)
      cases claim_bound = hb
      cases claim_missing = hn
      cases (claim_failed e) = he e

-- The rules for search.
pub ruleset answers = (Makes-reading, Makes-failure, Makes-target, Makes-storage, Makes-claim)
