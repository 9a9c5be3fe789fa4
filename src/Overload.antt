-- ===== src/Overload.antt =====
-- src/overload.rs: how many requests are let in at once. A permit of the semaphore and a count in the
-- gauge are taken and given back in steps of their own, between which other requests take theirs.
pub mod Admission
mod Tests
use solid_server_rs.Prelude.{
  ℕ, zero, suc, ◌+◌, ◌-◌, ◌%◌, ◌^◌, max, Option, none, some, List, [], ◌∷◌, ◌++◌, Str, codes, trim,
  parse_u64, ◌≡◌,
}

abbrev pub default_max_concurrency : ℕ
default_max_concurrency = 10000

abbrev positive_or_default : Option ℕ → ℕ
positive_or_default none = default_max_concurrency
positive_or_default (some zero) = default_max_concurrency
positive_or_default (some (suc n)) = suc n

abbrev of_trimmed : Str → ℕ
of_trimmed [] = default_max_concurrency
of_trimmed (c ∷ s) = positive_or_default (parse_u64 (c ∷ s))

unfoldable pub parse_max_concurrency : Option Str → ℕ
parse_max_concurrency none = default_max_concurrency
parse_max_concurrency (some raw) = of_trimmed (trim raw)

-- `semaphore` is its free permits.
pub record AdmissionControl : Type 0 where
  pub semaphore : ℕ
  pub in_flight : ℕ
  pub shed_total : ℕ
  pub max_concurrency : ℕ

unfoldable pub new : ℕ → AdmissionControl
new max_concurrency = record {
  semaphore = max max_concurrency 1;
  in_flight = 0;
  shed_total = 0;
  max_concurrency = max max_concurrency 1;
}

abbrev with_permits : AdmissionControl → ℕ → Option AdmissionControl
with_permits c zero = none
with_permits c (suc free) = some (record c { semaphore = free })

unfoldable pub try_admit : AdmissionControl → Option AdmissionControl
try_admit c = with_permits c c.semaphore

-- `fetch_add(1)` and `fetch_sub(1)` wrap around
unfoldable pub count_shed : AdmissionControl → AdmissionControl
count_shed c = record c { shed_total = (c.shed_total + 1) % 2 ^ 64 }

unfoldable pub enter_gauge : AdmissionControl → AdmissionControl
enter_gauge c = record c { in_flight = (c.in_flight + 1) % 2 ^ 64 }

unfoldable pub leave_gauge : AdmissionControl → AdmissionControl
leave_gauge c = record c { in_flight = (c.in_flight + (2 ^ 64 - 1)) % 2 ^ 64 }

unfoldable pub drop_permit : AdmissionControl → AdmissionControl
drop_permit c = record c { semaphore = c.semaphore + 1 }

-- Where an admitted request stands in `admission_middleware`: it has its permit; it is also in the
-- gauge and in the inner stack; it has answered and given its permit back; or it was cancelled or
-- panicked, and has left the gauge before it gives its permit back.
pub data Stage : Type 0 where
  admitted running answered unwinding : Stage

pub record Server : Type 0 where
  pub control : AdmissionControl
  pub requests : List Stage

pub data Step : Server → Server → Type 0 where
  shed :
      (c : AdmissionControl) (rs : List Stage)
      → try_admit c ≡ none
      → Step
          (record { control = c; requests = rs })
          (record { control = count_shed c; requests = rs })
  admit :
      (c d : AdmissionControl) (rs : List Stage)
      → try_admit c ≡ some d
      → Step
          (record { control = c; requests = rs })
          (record { control = d; requests = admitted ∷ rs })
  enter :
      (c : AdmissionControl) (before after : List Stage)
      → Step
          (record { control = c; requests = before ++ admitted ∷ after })
          (record { control = enter_gauge c; requests = before ++ running ∷ after })
  answer :
      (c : AdmissionControl) (before after : List Stage)
      → Step
          (record { control = c; requests = before ++ running ∷ after })
          (record { control = drop_permit c; requests = before ++ answered ∷ after })
  leave :
      (c : AdmissionControl) (before after : List Stage)
      → Step
          (record { control = c; requests = before ++ answered ∷ after })
          (record { control = leave_gauge c; requests = before ++ after })
  unwind :
      (c : AdmissionControl) (before after : List Stage)
      → Step
          (record { control = c; requests = before ++ running ∷ after })
          (record { control = leave_gauge c; requests = before ++ unwinding ∷ after })
  release :
      (c : AdmissionControl) (before after : List Stage)
      → Step
          (record { control = c; requests = before ++ unwinding ∷ after })
          (record { control = drop_permit c; requests = before ++ after })

-- What is reached from a new server.
pub data Reachable (max_concurrency : ℕ) : Server → Type 0 where
  start : Reachable max_concurrency (record { control = new max_concurrency; requests = [] })
  next : {s t : Server} → Reachable max_concurrency s → Step s t → Reachable max_concurrency t
