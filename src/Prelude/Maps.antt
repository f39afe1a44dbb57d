-- ===== src/Prelude/Maps.antt =====
-- Go's `map[string]string` as an association list. A nil map is the empty list: reads agree.
use Prim.Native.String.{String}
use mathlib.Core.Path.{◌≡◌, refl}
use mathlib.Core.List.{List, [], ◌∷◌}
use mathlib.Core.Option.{Option, none, some}
use native.Mathlib.Omega.{arith}
use text.Mathlib.Text.{◌==◌}
use text.Mathlib.TextEquality.{eq_iff}
use text.Mathlib.TextPositions.{eq_refl}
use gobehost_operator.Prelude.Tests.{if◌then◌else◌}

abbrev pub StringMap : Type 0
StringMap = List (String × String)

-- value, ok := entries[key]
unfoldable pub lookup {ℓ} : {V : Type ℓ} → String → List (String × V) → Option V
lookup key [] = none
lookup key (entry ∷ entries) =
    let later = lookup key entries in if entry.0 == key then some entry.1 else later

-- entries[key] = value
unfoldable pub insert {ℓ} : {V : Type ℓ} → String → V → List (String × V) → List (String × V)
insert key value [] = (key, value) ∷ []
insert key value (entry ∷ entries) =
    let changed = insert key value entries in
    if entry.0 == key then (entry.0, value) ∷ entries else entry ∷ changed

-- maps.Copy(dst, src)
unfoldable pub copy {ℓ} : {V : Type ℓ} → List (String × V) → List (String × V) → List (String × V)
unfolding insert
copy dst [] = dst
copy dst (entry ∷ src) = copy (insert entry.0 entry.1 dst) src

abbrev or_empty : Option String → String
or_empty none = ""
or_empty (some v) = v

-- m[k], which is "" at a missing key
unfoldable pub get : StringMap → String → String
unfolding lookup
get m k = or_empty (lookup k m)

-- What a read finds after a write, by the keys of both.
pub lookup-insert {ℓ} :
    {V : Type ℓ} (written read : String) (value : V) (entries : List (String × V))
    → lookup read (insert written value entries)
      ≡ (if written == read then some value else lookup read entries)
unfolding lookup insert
lookup-insert written read value [] = refl
lookup-insert written read value (entry ∷ entries) = ground (
  lookup-insert written read value entries,
  eq_iff entry.0 written,
  eq_iff entry.0 read,
  eq_iff written read,
  arith,
)

pub lookup-insert_self {ℓ} :
    {V : Type ℓ} (key : String) (value : V) (entries : List (String × V))
    → lookup key (insert key value entries) ≡ some value
lookup-insert_self key value entries = rw (lookup-insert, eq_refl) refl

pub get-insert_self : (k v : String) (m : StringMap) → get (insert k v m) k ≡ v
unfolding get
get-insert_self k v m = rw lookup-insert_self

pub get-insert :
    (k j v : String) (m : StringMap) → get (insert k v m) j ≡ (if k == j then v else get m j)
unfolding get
get-insert k j v m = ground (arith, lookup-insert k j v m)
