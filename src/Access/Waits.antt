-- ===== src/Access/Waits.antt =====
-- How long an action waits: the seconds slept, and those in which a command to a game server may be
-- under way.
use gobehost_operator.Prelude.{ℕ, ◌+◌, ◌≤◌, ◌≡◌, refl, Bool, true, false, arith, if◌then◌else◌}
use gobehost_operator.Cluster.{Response, ok, err, ApiError, Call, Log, M, ◌>>=◌, count_calls}
use gobehost_operator.Cluster.Footprint.{Makes, Makes-pure, Extends-count_calls, footprint}
use gobehost_operator.Access.Role.{Permitted, waits}

abbrev length_of_wait : ℕ → Call → ℕ
length_of_wait limit (Call.sleep seconds) = seconds
length_of_wait limit (Call.send_command _ _ _ _ _) = limit
length_of_wait limit _ = 0

-- The seconds that a call may wait, where a command takes `limit` seconds at most.
abbrev pub waited : ℕ → Call → ℕ
waited limit c = if waits c then length_of_wait limit c else 0

pub quiet : (limit : ℕ) (c : Call) → Permitted c → waits c ≡ false → waited limit c ≡ 0
quiet limit c p w = rw w refl

-- `m` waits `n` seconds at most.
pub record Waits {A : Type 0} (limit n : ℕ) (m : M A) : Type 0 where
  pub at : (log : Log) → count_calls (waited limit) (m log).1 ≤ n + count_calls (waited limit) log

module _ {limit n : ℕ} where
  pub Waits-none : {A : Type 0} {m : M A} → Makes (λ c. waited limit c ≡ 0) m → Waits limit n m
  Waits-none h = record {
    at = λ log. omega (arith, Extends-count_calls (waited limit) log _ (h.at log));
  }

  pub Waits-if :
      {A : Type 0} (b : Bool) (m k : M A)
      → Waits limit n m
      → Waits limit n k
      → Waits limit n (if b then m else k)
  Waits-if true m k hm hk = hm
  Waits-if false m k hm hk = hk

  pub Waits-last :
      {A B : Type 0} (m : M A) (f : A → M B)
      → Makes (λ c. waited limit c ≡ 0) m
      → ((a : A) → Waits limit n (f a))
      → Waits limit n (m >>= f)
  Waits-last m f hm hf = record {
    at = λ log.
        omega (
          arith,
          Extends-count_calls (waited limit) log _ (hm.at log),
          (hf (m log).0).at (m log).1,
        );
  }

  pub Waits-answer :
      {A B : Type 0} (m : M (Response A)) (f : Response A → M B)
      → Makes (λ c. waited limit c ≡ 0) m
      → ((a : A) → Waits limit n (f (ok a)))
      → ((e : ApiError) → Waits limit n (f (err e)))
      → Waits limit n (m >>= f)
  Waits-answer m f hm ha he = Waits-last m f hm cases
    where
      cases : (r : Response _) → Waits limit n (f r)
      cases (ok a) = ha a
      cases (err e) = he e

  pub Waits-first :
      {A B : Type 0} (m : M A) (f : A → M B)
      → Waits limit n m
      → ((a : A) → Makes (λ c. waited limit c ≡ 0) (f a))
      → Waits limit n (m >>= f)
  Waits-first m f hm hf = record {
    at = λ log. omega (
      arith,
      Extends-count_calls (waited limit) (m log).1 _ ((hf (m log).0).at (m log).1),
      hm.at log,
    );
  }

pub ruleset waiting = (Waits-answer, Waits-last, Waits-none, Waits-if, footprint)
