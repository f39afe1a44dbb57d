-- ===== src/Reconciler/ConditionMap.antt =====
-- The list of conditions as what it is to its readers, a map from types to conditions: the resources
-- declare it with `listType=map` and `listMapKey=type`. Order and shadowed entries are forgotten by a quotient.
use Prim.Native.Char.{IsScalar}
use text.Mathlib.TextEquality.{IsScalar-prop}
use mathlib.Core.Quot
use mathlib.Core.Quot.{Quot, Quot-set}
use gobehost_operator.Prelude.{
  ℕ, ◌≡◌, refl, ◌≢◌, String, List, Option, some, arith, ◌==◌, eq_iff, if◌then◌else◌,
}
use gobehost_operator.Kube.{Time, ConditionStatus, Condition}
use gobehost_operator.Api.{GameServer, GameServerFleet, GameServerBackup}
use gobehost_operator.Reconciler.Conditions.{
  put_condition, new_condition, set_condition, set_fleet_condition, set_backup_condition,
}
use gobehost_operator.Reconciler.OneCondition.{find_condition, find-put_condition}

-- Every type finds the same condition.
abbrev pub SameConditions : List Condition → List Condition → Type 0
SameConditions xs ys = (t : String) → find_condition t xs ≡ find_condition t ys

abbrev pub ConditionMap : Type 0
ConditionMap = Quot SameConditions

abbrev pub of_list : List Condition → ConditionMap
of_list = Quot.mk

put-SameConditions :
    (c : Condition) (xs ys : List Condition)
    → SameConditions xs ys
    → SameConditions (put_condition c xs) (put_condition c ys)
put-SameConditions c xs ys h t = rw (find-put_condition c xs t, find-put_condition c ys t, h t) refl

-- The setters' loop, on maps.
pub insert : Condition → ConditionMap → ConditionMap
insert c =
    Quot.lift Quot-set (λ xs. of_list (put_condition c xs))
      λ xs ys h. Quot.sound (put-SameConditions c xs ys h)

IsScalar-set : (n : ℕ) → IsSet (IsScalar n)
IsScalar-set n = hlevel (IsScalar-prop)

Condition-set : IsSet (Option Condition)
Condition-set = hlevel (IsScalar-set)

-- meta.FindStatusCondition, on maps.
pub find : String → ConditionMap → Option Condition
find t = Quot.lift Condition-set (find_condition t) λ xs ys h. h t

pub ext : (m n : ConditionMap) → ((t : String) → find t m ≡ find t n) → m ≡ n
unfolding find
ext = Quot.ind (λ _. hlevel Quot-set) λ xs. Quot.ind (λ _. hlevel Quot-set) λ ys. Quot.sound

pub find-insert :
    (t : String) (c : Condition) (m : ConditionMap)
    → find t (insert c m) ≡ (if c.type == t then some c else find t m)
unfolding find insert
find-insert t c = Quot.ind (λ _. Condition-set _ _) λ xs. find-put_condition c xs t

-- Conditions of different types may be set in either order.
pub insert_comm :
    (c d : Condition) (m : ConditionMap)
    → c.type ≢ d.type
    → insert c (insert d m) ≡ insert d (insert c m)
insert_comm c d m h = ext _ _ λ t.
    rw
      (
        find-insert t c (insert d m),
        find-insert t d m,
        find-insert t d (insert c m),
        find-insert t c m,
      )
      (ground (arith, eq_iff c.type t, eq_iff d.type t))

-- Of two conditions of one type the last that is set counts.
pub insert-insert :
    (c d : Condition) (m : ConditionMap) → c.type ≡ d.type → insert c (insert d m) ≡ insert c m
insert-insert c d m h = ext _ _ λ t.
    rw (find-insert t c (insert d m), find-insert t d m, find-insert t c m)
      (ground (arith, eq_iff c.type t, eq_iff d.type t))

module _ (now : Time) (a b : String) (s t : ConditionStatus) (r q m n : String)
    (different : b ≢ a) where
  -- Two conditions of different types are set to the same map in either order, by each of the three
  -- setters.
  pub setters_comm :
      (gs : GameServer) (fleet : GameServerFleet) (backup : GameServerBackup)
      → (of_list (set_condition now (set_condition now gs a s r m) b t q n).status.conditions
          ≡ of_list (set_condition now (set_condition now gs b t q n) a s r m).status.conditions)
        × (of_list
              (set_fleet_condition now
                (set_fleet_condition now fleet a s r m)
                b
                t
                q
                n).status.conditions
            ≡ of_list
                (set_fleet_condition now
                  (set_fleet_condition now fleet b t q n)
                  a
                  s
                  r
                  m).status.conditions)
        × (of_list
              (set_backup_condition now
                (set_backup_condition now backup a s r m)
                b
                t
                q
                n).status.conditions
            ≡ of_list
                (set_backup_condition now
                  (set_backup_condition now backup b t q n)
                  a
                  s
                  r
                  m).status.conditions)
  unfolding insert set_condition set_fleet_condition set_backup_condition
  setters_comm gs fleet backup = (
    insert_comm (new_condition now gs.status.observed_generation b t q n)
        (new_condition now gs.status.observed_generation a s r m) (of_list gs.status.conditions)
        different,
    insert_comm (new_condition now fleet.status.observed_generation b t q n)
        (new_condition now fleet.status.observed_generation a s r m)
        (of_list fleet.status.conditions) different,
    insert_comm (new_condition now backup.status.observed_generation b t q n)
        (new_condition now backup.status.observed_generation a s r m)
        (of_list backup.status.conditions) different,
  )
