-- ===== src/Reconciler/OneCondition.antt =====
-- One condition for each type: what SetCondition, setFleetCondition and setBackupCondition keep.
use gobehost_operator.Prelude.{
  ℕ, ◌+◌, ◌≤◌, ◌≡◌, refl, ◌≢◌, Bool, true, false, String, List, [], ◌∷◌, Option, none, some, arith,
  ◌==◌, eq_iff, eq_refl, if◌then◌else◌, eqb, ◌&&◌,
}
use gobehost_operator.Kube.{Time, ConditionStatus, condition_true, condition_false, Condition}
use gobehost_operator.Api.{GameServer, GameServerFleet, GameServerBackup}
use gobehost_operator.Reconciler.Conditions.{
  put_condition, set_condition, set_fleet_condition, set_backup_condition, set_ready, new_condition,
}

-- The first condition of a type, as meta.FindStatusCondition reads it.
abbrev pub find_condition : String → List Condition → Option Condition
find_condition t [] = none
find_condition t (c ∷ cs) = if c.type == t then some c else find_condition t cs

abbrev pub count_type : String → List Condition → ℕ
count_type t [] = 0
count_type t (c ∷ cs) = (if c.type == t then 1 else 0) + count_type t cs

-- No type stands twice, as the resource's `listType=map` demands.
pub record IsKeyed (cs : List Condition) : Type 0 where
  pub once : (t : String) → count_type t cs ≤ 1

-- Setting a condition makes it the one that its type finds, and changes what no other type finds.
pub find-put_condition :
    (c : Condition) (cs : List Condition) (t : String)
    → find_condition t (put_condition c cs) ≡ (if c.type == t then some c else find_condition t cs)
unfolding put_condition
find-put_condition c [] t = refl
find-put_condition c (x ∷ cs) t =
    ground
      (arith, find-put_condition c cs t, eq_iff x.type c.type, eq_iff x.type t, eq_iff c.type t)

count-put_condition :
    (c : Condition) (cs : List Condition) (t : String)
    → count_type t (put_condition c cs)
      ≡ (if (c.type == t) && eqb (count_type t cs) 0 then 1 else count_type t cs)
unfolding put_condition
count-put_condition c [] t = ground (arith, eq_iff c.type t)
count-put_condition c (x ∷ cs) t =
    ground
      (arith, count-put_condition c cs t, eq_iff x.type c.type, eq_iff x.type t, eq_iff c.type t)

-- Setting a condition in a list that has no type twice leaves it so.
pub put_condition-IsKeyed :
    (c : Condition) (cs : List Condition) → IsKeyed cs → IsKeyed (put_condition c cs)
put_condition-IsKeyed c cs h = record {
  once = λ t. ground (arith, count-put_condition c cs t, h.once t);
}

-- Setting the same condition twice is setting it once.
pub put-put_condition :
    (c : Condition) (cs : List Condition)
    → put_condition c (put_condition c cs) ≡ put_condition c cs
unfolding put_condition
put-put_condition c [] = ground (arith, eq_refl c.type)
put-put_condition c (x ∷ cs) = ground (arith, put-put_condition c cs, eq_refl c.type)

abbrev pub SaysReady : Option Condition → Bool → Type 0
SaysReady none ready = ⊥
SaysReady (some c) true = c.status ≡ condition_true
SaysReady (some c) false = c.status ≡ condition_false

-- After SetReady the field and the condition "Ready" say the same, and the conditions of other
-- types, the phase and the spec are as they were.
pub set_ready_agrees :
    (now : Time) (gs : GameServer) (ready : Bool) (reason message t : String)
    → "Ready" ≢ t
    → let gs' = set_ready now gs ready reason message in
      (gs'.status.ready ≡ ready)
      × SaysReady (find_condition "Ready" gs'.status.conditions) ready
      × (find_condition t gs'.status.conditions ≡ find_condition t gs.status.conditions)
      × (gs'.status.phase ≡ gs.status.phase)
      × (gs'.spec ≡ gs.spec)
unfolding set_ready set_condition
set_ready_agrees now gs true reason message t h = (
  refl,
  rw find-put_condition refl,
  ground (
    arith,
    find-put_condition
        (new_condition now gs.status.observed_generation "Ready" condition_true reason message)
        gs.status.conditions t,
    eq_iff "Ready" t,
  ),
  refl,
  refl,
)
set_ready_agrees now gs false reason message t h = (
  refl,
  rw find-put_condition refl,
  ground (
    arith,
    find-put_condition
        (new_condition now gs.status.observed_generation "Ready" condition_false reason message)
        gs.status.conditions t,
    eq_iff "Ready" t,
  ),
  refl,
  refl,
)

-- What it is to set a condition: its type finds the new one and other types what they found; a type
-- that stood nowhere stands once now, and no other count of a type changes.
pub record Puts (c : Condition) (before after : List Condition) : Type 0 where
  pub found :
      (t : String)
      → find_condition t after ≡ (if c.type == t then some c else find_condition t before)
  pub counted :
      (t : String)
      → count_type t after
        ≡ (if (c.type == t) && eqb (count_type t before) 0 then 1 else count_type t before)

put_condition-Puts : (c : Condition) (cs : List Condition) → Puts c cs (put_condition c cs)
put_condition-Puts c cs = record {
  found = find-put_condition c cs;
  counted = count-put_condition c cs;
}

-- Each of the three setters makes the new condition, with the generation that the status has observed,
-- the one that its type finds, leaves what other types find, and adds to the list only if the type
-- stood nowhere.
pub setters_put :
    (now : Time) (gs : GameServer) (fleet : GameServerFleet) (backup : GameServerBackup)
    (type : String) (status : ConditionStatus) (reason message : String)
    → Puts
        (new_condition now gs.status.observed_generation type status reason message)
        gs.status.conditions
        (set_condition now gs type status reason message).status.conditions
      × Puts
          (new_condition now fleet.status.observed_generation type status reason message)
          fleet.status.conditions
          (set_fleet_condition now fleet type status reason message).status.conditions
      × Puts
          (new_condition now backup.status.observed_generation type status reason message)
          backup.status.conditions
          (set_backup_condition now backup type status reason message).status.conditions
unfolding set_condition set_fleet_condition set_backup_condition
setters_put now gs fleet backup type status reason message = (
  put_condition-Puts _ gs.status.conditions,
  put_condition-Puts _ fleet.status.conditions,
  put_condition-Puts _ backup.status.conditions,
)
