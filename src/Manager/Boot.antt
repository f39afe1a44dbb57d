-- ===== src/Manager/Boot.antt =====
-- The order in which the process is set up, and what must hold before the manager starts.
use gobehost_operator.Prelude.{
  ◌≡◌, refl, ap, inl, inr, Bool, true, false, ◌++◌, not, String, List, [], ◌∷◌, ◌==◌, if◌then◌else◌,
  Bool-cases,
}
use gobehost_operator.Manager.Options.{Flags, manager_options}
use gobehost_operator.Manager.Setup.{
  Step, new_manager, register, register_for, add_healthz_check, add_readyz_check, start, Exit,
  exit_failure, end_of_main, setup_game_server_webhook, setup_game_server_fleet_webhook,
  game_server_controller, game_server_fleet_controller, game_server_backup_controller, main,
}

-- The steps of a set-up in which nothing fails.
abbrev pub setup_steps : Flags → String → List Step
setup_steps flags enable_webhooks =
    let webhook : Step → List Step → List Step =
      λ step steps. if not (enable_webhooks == "false") then step ∷ steps else steps in
    new_manager (manager_options flags)
    ∷ register game_server_controller
    ∷ webhook setup_game_server_webhook (
        register game_server_fleet_controller
        ∷ webhook setup_game_server_fleet_webhook (
            register_for game_server_backup_controller flags.backup_config_namespace
            ∷ add_healthz_check
            ∷ add_readyz_check
            ∷ start
            ∷ []))

-- The steps in their order, up to the first that fails.
abbrev pub until_failure : (List Step → Step → Bool) → List Step → List Step → Exit × List Step
until_failure fails [] made = (end_of_main, made)
until_failure fails (step ∷ steps) made =
    if fails made step then (exit_failure, step ∷ made) else until_failure fails steps (step ∷ made)

-- main makes the steps of the set-up in their order up to the first that fails, on which the process
-- ends with a failure; the webhooks are among them unless ENABLE_WEBHOOKS is "false".
pub main_runs_setup_steps :
    (fails : List Step → Step → Bool) (flags : Flags) (enable_webhooks : String) (made : List Step)
    → main fails flags enable_webhooks made
      ≡ until_failure fails (setup_steps flags enable_webhooks) made
unfolding main manager_options
main_runs_setup_steps fails flags enable_webhooks made =
    elim (Bool-cases (enable_webhooks == "false")) [ inl h ↦ rw h refl | inr h ↦ rw h refl ]

abbrev pub reverse_onto : List Step → List Step → List Step
reverse_onto [] ys = ys
reverse_onto (x ∷ xs) ys = reverse_onto xs (x ∷ ys)

-- The steps succeed, one after the other, after those made before.
abbrev pub Passed : (List Step → Step → Bool) → List Step → List Step → Type 0
Passed fails [] made = Unit
Passed fails (step ∷ steps) made = (fails made step ≡ false) × Passed fails steps (step ∷ made)

-- How the set-up ends after the steps `made` with others still to make: there is none, or the first of
-- them fails.
pub data Ended (fails : List Step → Step → Bool) (made : List Step)
    : List Step → Exit × List Step → Type 0 where
  finished : Ended fails made [] (end_of_main, made)
  broke :
      (step : Step) (rest : List Step)
      → fails made step ≡ true
      → Ended fails made (step ∷ rest) (exit_failure, step ∷ made)

-- The first of `steps` succeed, in their order, and the set-up ends after them.
pub record MakesFirst (fails : List Step → Step → Bool) (steps before : List Step)
    (r : Exit × List Step) : Type 0 where
  pub passed : List Step
  pub rest : List Step
  pub split : steps ≡ passed ++ rest
  pub succeed : Passed fails passed before
  pub ended : Ended fails (reverse_onto passed before) rest r

until_failure-MakesFirst :
    (fails : List Step → Step → Bool) (steps before : List Step)
    → MakesFirst fails steps before (until_failure fails steps before)
until_failure-MakesFirst fails [] before = record {
  passed = [];
  rest = [];
  split = refl;
  succeed = tt;
  ended = finished;
}
until_failure-MakesFirst fails (step ∷ steps) before = elim (Bool-cases (fails before step)) [
  | inl h ↦ rw h (record {
    passed = [];
    rest = step ∷ steps;
    split = refl;
    succeed = tt;
    ended = broke step steps h;
  })
  | inr h ↦
      let more = until_failure-MakesFirst fails steps (step ∷ before) in
      rw h (record {
        passed = step ∷ more.passed;
        rest = more.rest;
        split = ap (λ (ss : List Step). step ∷ ss) more.split;
        succeed = (h, more.succeed);
        ended = more.ended;
      })
]

-- The steps of the set-up, in their order, succeed up to the first that fails, and main ends with that
-- one and a failure of the process; or all of them succeed, the start of the manager last, and main
-- comes to its end. It makes no other step. The webhooks are among them unless ENABLE_WEBHOOKS is
-- "false".
pub main-MakesFirst :
    (fails : List Step → Step → Bool) (flags : Flags) (enable_webhooks : String)
    → MakesFirst fails (setup_steps flags enable_webhooks) [] (main fails flags enable_webhooks [])
main-MakesFirst fails flags enable_webhooks =
    rw (main_runs_setup_steps fails flags enable_webhooks [])
      (until_failure-MakesFirst fails (setup_steps flags enable_webhooks) [])
