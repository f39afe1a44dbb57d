-- ===== src/Reconciler/Storage.antt =====
-- Where a backup is stored: the backup's own settings before the platform's.
use gobehost_operator.Prelude.{
  ◌≡◌, ◌≢◌, refl, inl, inr, String, ◌<>◌, Option, none, some, arith, ◌==◌, eq_iff, if◌then◌else◌,
  not, Bool-cases, Option-cases, text_cases,
}
use gobehost_operator.Api.{BackupStorageSpec, GameServerBackup}
use gobehost_operator.Reconciler.BackupJobs.{BackupConfig, override_secret, resolve_config}
use text.Mathlib.TextLemmas.{append-eq-nil_iff}

-- The text that a backup's own storage gives for a setting, "" without one.
abbrev pub own : (BackupStorageSpec → String) → Option BackupStorageSpec → String
own field none = ""
own field (some storage) = field storage

abbrev pub own_secret : Option BackupStorageSpec → String
own_secret none = ""
own_secret (some storage) = elim (storage.secret_ref) [ none ↦ "" | some name ↦ name ]

abbrev pub first_of : String → String → String
first_of own platform = if own == "" then platform else own

first_of_lem : (x y : String) → (if not (x == "") then x else y) ≡ first_of x y
first_of_lem x y = elim (Bool-cases (x == "")) [ inl h ↦ rw h refl | inr h ↦ rw h refl ]

first_of_given : (x y : String) → y ≢ "" → first_of x y ≢ ""
first_of_given x y given = elim (text_cases x "") [ inl (e, h) ↦ rw h given | inr (e, h) ↦ rw h e ]

default_given : (namespace name : String) → (namespace <> ("/" <> name)) ≢ ""
default_given namespace name e =
    ground (arith, (append-eq-nil_iff.0 (append-eq-nil_iff.0 e).1).0, eq_iff "/" "")

-- What resolveConfig makes of a backup and the platform's configuration.
pub record IsResolved (backup : GameServerBackup) (platform cfg : BackupConfig) : Type 0 where
  pub endpoint :
      cfg.endpoint ≡ first_of (own (λ s. s.endpoint) backup.spec.storage) platform.endpoint
  pub bucket : cfg.bucket ≡ first_of (own (λ s. s.bucket) backup.spec.storage) platform.bucket
  pub path :
      cfg.path
      ≡ first_of
          (first_of (own (λ s. s.path) backup.spec.storage) platform.path)
          (backup.meta.namespace <> ("/" <> backup.spec.target_ref.name))
  pub path_given : cfg.path ≢ ""
  pub secret_name : cfg.secret_name ≡ first_of (own_secret backup.spec.storage) platform.secret_name
  pub secret_namespace : cfg.secret_namespace ≡ backup.meta.namespace

-- Endpoint, bucket, path and the name of the Secret are the backup's own, where it gives them, and
-- the platform's elsewhere; the path is never empty, since it is made of the backup's namespace and
-- the target's name if neither gives one; the Secret is one of the backup's namespace.
pub resolve_config-IsResolved :
    (backup : GameServerBackup) (platform : BackupConfig)
    → IsResolved backup platform (resolve_config backup platform)
unfolding resolve_config
resolve_config-IsResolved backup platform = elim (Option-cases backup.spec.storage) [
  | inl e ↦ rw e (record {
    endpoint = refl;
    bucket = refl;
    path = refl;
    path_given =
        first_of_given platform.path _
          (default_given backup.meta.namespace backup.spec.target_ref.name);
    secret_name = refl;
    secret_namespace = refl;
  })
  | inr (s, e) ↦
      rw (e, first_of_lem s.path platform.path)
        (record {
          endpoint = first_of_lem s.endpoint platform.endpoint;
          bucket = first_of_lem s.bucket platform.bucket;
          path = refl;
          path_given =
              first_of_given (first_of s.path platform.path) _
                (default_given backup.meta.namespace backup.spec.target_ref.name);
          secret_name = secret_lem s.secret_ref;
          secret_namespace = refl;
        })
]
  where
    secret_lem :
        (r : Option String)
        → override_secret platform.secret_name r
          ≡ first_of (elim r [ none ↦ "" | some name ↦ name ]) platform.secret_name
    secret_lem none = refl
    secret_lem (some name) = first_of_lem name platform.secret_name
