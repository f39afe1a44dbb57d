-- ===== src/Webhook/Hardening.antt =====
-- The security contexts of the workload that is built for a GameServer that went through defaulting.
use gobehost_operator.Prelude.{
  ◌≡◌, refl, ap, ◌∙◌, Bool, true, String, [], ◌∷◌, map, Option, none, some, arith, ◌==◌, not,
  if◌then◌else◌, inl, inr, Option-cases, text_cases,
}
use gobehost_operator.Prelude.Int.{pos}
use gobehost_operator.Kube.{SecurityContext, PodSecurityContext, PodSpec, StatefulSet}
use gobehost_operator.Api.{SecuritySpec, SchedulingSpec, GameServer}
use gobehost_operator.Adapter.{GameAdapter, Registry}
use gobehost_operator.Reconciler.{
  drops_all, build_container, build_security_context, build_pod_security_context, apply_scheduling,
  stateful_set_of, build_stateful_set,
}
use gobehost_operator.Reconciler.Wiring.{built_by}
use gobehost_operator.Webhook.GameServers.{default_to, default_game_server}

-- What the user asks for, or else the hardened value.
abbrev pub asked {ℓ} : {A : Type ℓ} → (SecuritySpec → Option A) → Option SecuritySpec → A → A
asked field none d = d
asked field (some s) d = elim (field s) [ none ↦ d | some v ↦ v ]

abbrev pub asked_profile : Option SecuritySpec → String
asked_profile none = "RuntimeDefault"
asked_profile (some s) = if s.seccomp_profile == "" then "RuntimeDefault" else s.seccomp_profile

abbrev pub asked_read_only : Option SecuritySpec → Option Bool
asked_read_only none = none
asked_read_only (some s) = s.read_only_root_filesystem

-- The user's wishes with the hardened values where they are silent.
abbrev pub hardened_container : Option SecuritySpec → SecurityContext
hardened_container wishes = record {
  run_as_non_root = some (asked (λ s. s.run_as_non_root) wishes true);
  run_as_user = some (asked (λ s. s.run_as_user) wishes (pos 1000));
  drop_capabilities = if asked (λ s. s.drop_all_capabilities) wishes true then "ALL" ∷ [] else [];
  read_only_root_filesystem = asked_read_only wishes;
  seccomp_profile = some (asked_profile wishes);
}

abbrev pub hardened_pod : Option SecuritySpec → PodSecurityContext
hardened_pod wishes = record {
  run_as_user = some (asked (λ s. s.run_as_user) wishes (pos 1000));
  run_as_group = some (asked (λ s. s.run_as_group) wishes (pos 1000));
  fs_group = some (asked (λ s. s.fs_group) wishes (pos 1000));
}

filled {ℓ} :
    {A : Type ℓ} (d : A) (x : Option A) → default_to d x ≡ some (elim x [ none ↦ d | some v ↦ v ])
filled d none = refl
filled d (some v) = refl

dropped : (x : Option Bool) → drops_all (default_to true x) ≡ (elim x [ none ↦ true | some v ↦ v ])
dropped none = refl
dropped (some v) = refl

profiled :
    (p : String)
    → (if not ((if p == "" then "RuntimeDefault" else p) == "")
        then some (if p == "" then "RuntimeDefault" else p)
        else none)
      ≡ some (if p == "" then "RuntimeDefault" else p)
profiled p = elim (text_cases p "") [ inl (e, h) ↦ rw h refl | inr (e, h) ↦ simp h refl ]

container_hardened :
    (gs : GameServer)
    → build_security_context (default_game_server gs) ≡ hardened_container gs.spec.security
unfolding build_security_context default_game_server
container_hardened gs = elim (Option-cases gs.spec.security) [
  | inl e ↦ rw e refl
  | inr (s, e) ↦ rw e (
      rw
        (
          filled true s.run_as_non_root,
          filled (pos 1000) s.run_as_user,
          dropped s.drop_all_capabilities,
          profiled s.seccomp_profile,
        )
        refl)
]

pod_hardened :
    (gs : GameServer) (a : GameAdapter)
    → build_pod_security_context (default_game_server gs) a ≡ hardened_pod gs.spec.security
unfolding build_pod_security_context default_game_server
pod_hardened gs a = elim (Option-cases gs.spec.security) [
  | inl e ↦ rw e refl
  | inr (s, e) ↦ rw e (ground arith)
]

scheduled :
    (scheduling : Option SchedulingSpec) (pod : PodSpec)
    → ((apply_scheduling scheduling pod).containers ≡ pod.containers)
      × ((apply_scheduling scheduling pod).security_context ≡ pod.security_context)
unfolding apply_scheduling
scheduled none pod = (refl, refl)
scheduled (some s) pod = (refl, refl)

-- The StatefulSet built for a GameServer that went through defaulting runs one container, and its
-- security contexts are what the user asks for: where nothing is asked they are those of a user and
-- group 1000 that is not root, without capabilities, under the profile RuntimeDefault.
pub built_hardened :
    (registry : Registry) (gs : GameServer) (sts : StatefulSet)
    → build_stateful_set registry (default_game_server gs) ≡ some sts
    → (map (λ c. c.security_context) sts.template.spec.containers
        ≡ some (hardened_container gs.spec.security) ∷ [])
      × (sts.template.spec.security_context ≡ some (hardened_pod gs.spec.security))
unfolding stateful_set_of build_container
built_hardened registry gs sts h =
    let (a, e) = built_by registry (default_game_server gs) sts h in
    let pod = (stateful_set_of (default_game_server gs) a).template.spec in
    rw e (
      ap (λ cs. map (λ c. c.security_context) cs)
            (scheduled (default_game_server gs).spec.scheduling _).0
          ∙ ap (λ c. some c ∷ []) (container_hardened gs),
      (scheduled (default_game_server gs).spec.scheduling _).1 ∙ ap some (pod_hardened gs a),
    )
