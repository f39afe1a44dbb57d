-- ===== src/Cluster/Footprint/Calls.antt =====
-- What the calls of an action have in common, one rule for each way to build an action.
use gobehost_operator.Prelude.{ℕ, ◌≡◌, refl, arith, Bool, true, false, ◌∷◌, if◌then◌else◌, All}
use gobehost_operator.Cluster.Interface.{Response, ok, err, ApiError, Call, Log}
use gobehost_operator.Cluster.Counting.{count_calls}
use gobehost_operator.Cluster.Actions.{M, pure, ◌>>=◌, sleep}

-- A later log: each call made since satisfies `P`.
pub data Extends (P : Call → Type 0) (before : Log) : Log → Type 0 where
  same : Extends P before before
  called : {after : Log} (c : Call) → P c → Extends P before after → Extends P before (c ∷ after)

module _ {P : Call → Type 0} where
  pub Extends-trans : (a b c : Log) → Extends P a b → Extends P b c → Extends P a c
  Extends-trans a b _ e same = e
  Extends-trans a b _ e (called c p f) = called c p (Extends-trans a b _ e f)

  pub Extends-All : (before after : Log) → Extends P before after → All P before → All P after
  Extends-All before _ same h = h
  Extends-All before _ (called c p e) h = (p, Extends-All before _ e h)

-- Calls without weight do not count.
pub Extends-count_calls :
    (w : Call → ℕ) (before after : Log)
    → Extends (λ c. w c ≡ 0) before after
    → count_calls w after ≡ count_calls w before
Extends-count_calls w before _ same = refl
Extends-count_calls w before _ (called c p e) = omega (arith, p, Extends-count_calls w before _ e)

-- The calls that `m` makes all satisfy `P`.
pub record Makes {A : Type 0} (P : Call → Type 0) (m : M A) : Type 0 where
  pub at : (log : Log) → Extends P log (m log).1

module _ {A : Type 0} {P : Call → Type 0} where
  pub Makes-pure : (a : A) → Makes P (pure a)
  Makes-pure a = record { at = λ log. same }

  pub Makes-if : (b : Bool) (m n : M A) → Makes P m → Makes P n → Makes P (if b then m else n)
  Makes-if true m n hm hn = hm
  Makes-if false m n hm hn = hn

module _ {A B : Type 0} {P : Call → Type 0} where
  pub Makes-bind :
      (m : M A) (f : A → M B) → Makes P m → ((a : A) → Makes P (f a)) → Makes P (m >>= f)
  Makes-bind m f hm hf = record {
    at = λ log. Extends-trans log (m log).1 _ (hm.at log) ((hf (m log).0).at (m log).1);
  }

module _ {A B : Type 0} {P : Call → Type 0} where
  -- What follows may rely on what every result of `m` satisfies.
  pub Makes-known :
      (Q : A → Type 0) (m : M A) (f : A → M B)
      → Makes P m
      → ((log : Log) → Q (m log).0)
      → ((a : A) → Q a → Makes P (f a))
      → Makes P (m >>= f)
  Makes-known Q m f hm known hf = record {
    at = λ log. Extends-trans log (m log).1 _ (hm.at log) ((hf (m log).0 (known log)).at (m log).1);
  }

module _ {A B : Type 0} {P : Call → Type 0} where
  Makes-cases :
      (f : Response A → M B) (r : Response A)
      → ((a : A) → Makes P (f (ok a)))
      → ((e : ApiError) → Makes P (f (err e)))
      → Makes P (f r)
  Makes-cases f (ok a) hf he = hf a
  Makes-cases f (err e) hf he = he e

  -- What follows a request, by its answer.
  pub Makes-answer :
      (m : M (Response A)) (f : Response A → M B)
      → Makes P m
      → ((a : A) → Makes P (f (ok a)))
      → ((e : ApiError) → Makes P (f (err e)))
      → Makes P (m >>= f)
  Makes-answer m f hm hf he = Makes-bind m f hm (λ r. Makes-cases f r hf he)

module _ {A : Type 0} {P : Call → Type 0} where
  pub Makes-call : {c : Call} {f : Log → A} → P c → Makes P (λ log. (f log, c ∷ log))
  Makes-call p = record { at = λ log. called _ p same }

module _ {P : Call → Type 0} where
  pub Makes-sleep : (seconds : ℕ) → P (Call.sleep seconds) → Makes P (sleep seconds)
  Makes-sleep seconds p = Makes-call p
