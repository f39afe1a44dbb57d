-- ===== src/Reconciler/BackupMounts.antt =====
-- internal/reconciler/backup.go and statefulset.go: the volumes of a game and of its backups.
use gobehost_operator.Prelude.{All, true, ◌≡◌, String, ◌<>◌, map}
use gobehost_operator.Kube.{
  PersistentVolumeClaim, StatefulSet, Volume, VolumeMount, Container, PodSpec,
}

-- Kubernetes' name for the claim that a template makes for the pod of an ordinal.
abbrev pub claim_name : StatefulSet → PersistentVolumeClaim → String → String
claim_name sts claim ordinal = claim.meta.name <> ("-" <> (sts.meta.name <> ("-" <> ordinal)))

-- A pod whose volumes are the claims of the StatefulSet for its pod 0, and that mounts them all, only
-- to read.
pub record Mounts (sts : StatefulSet) (pod : PodSpec) : Type 0 where
  pub claims :
      map (λ (v : Volume). v.claim_name) pod.volumes
      ≡ map (λ claim. claim_name sts claim "0") sts.volume_claim_templates
  pub mounted :
      All
        (λ (c : Container).
          map (λ (m : VolumeMount). m.name) c.volume_mounts
          ≡ map (λ (v : Volume). v.name) pod.volumes)
        pod.containers
  pub read_only :
      All (λ (v : Volume). v.read_only ≡ true) pod.volumes
      × All
          (λ (c : Container). All (λ (m : VolumeMount). m.read_only ≡ true) c.volume_mounts)
          pod.containers
