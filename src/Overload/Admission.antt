-- ===== src/Overload/Admission.antt =====
-- src/overload.rs: permits and gauge agree with the requests that are under way, in every interleaving.
use solid_server_rs.Prelude.{
  ℕ, zero, suc, ◌+◌, ◌-◌, ◌%◌, ◌^◌, ◌≤◌, max, ◌≡◌, ◌↔◌, refl, sym, ap, ◌∙◌, none, some, List, [],
  ◌∷◌, ◌++◌, arith,
}
use mathlib.Core.Option.{some-injective}
use solid_server_rs.Overload.{
  AdmissionControl, new, try_admit, with_permits, count_shed, enter_gauge, leave_gauge, drop_permit,
  Stage, admitted, running, answered, unwinding, Server, Step, shed, admit, enter, answer, leave,
  unwind, release, Reachable, start, next,
}

abbrev total : (Stage → ℕ) → List Stage → ℕ
total f [] = 0
total f (r ∷ rs) = f r + total f rs

total-append : (f : Stage → ℕ) (xs ys : List Stage) → total f (xs ++ ys) ≡ total f xs + total f ys
total-append f [] ys = omega arith
total-append f (x ∷ xs) ys = omega (arith, total-append f xs ys)

-- the requests that hold a permit, are counted by the gauge, and are in the inner stack
abbrev holds : Stage → ℕ
holds answered = 0
holds _ = 1

abbrev counts : Stage → ℕ
counts running = 1
counts answered = 1
counts _ = 0

abbrev runs : Stage → ℕ
runs running = 1
runs _ = 0

abbrev pub holding : List Stage → ℕ
holding rs = total holds rs

abbrev pub counted : List Stage → ℕ
counted rs = total counts rs

abbrev pub inside : List Stage → ℕ
inside rs = total runs rs

pub record IsConsistent (s : Server) : Type 0 where
  pub permits : s.control.semaphore + holding s.requests ≡ s.control.max_concurrency
  pub gauge : s.control.in_flight ≡ counted s.requests % 2 ^ 64

up : (g n : ℕ) → g ≡ n % 2 ^ 64 → (g + 1) % 2 ^ 64 ≡ (n + 1) % 2 ^ 64
up g n h = omega (arith, h)

down : (g n : ℕ) → g ≡ (n + 1) % 2 ^ 64 → (g + (2 ^ 64 - 1)) % 2 ^ 64 ≡ n % 2 ^ 64
down g n h = omega (arith, h)

with_permits-some :
    (c d : AdmissionControl) (free : ℕ)
    → with_permits c free ≡ some d
    → (d.semaphore + 1 ≡ free)
      × (d.in_flight ≡ c.in_flight)
      × (d.max_concurrency ≡ c.max_concurrency)
with_permits-some c d zero h = absurd (cc h)
with_permits-some c d (suc free) h =
    let same = some-injective (record c { semaphore = free }) d h in
    (
      ap (λ (a : AdmissionControl). a.semaphore + 1) (sym same) ∙ omega arith,
      ap (λ (a : AdmissionControl). a.in_flight) (sym same),
      ap (λ (a : AdmissionControl). a.max_concurrency) (sym same),
    )

-- One request among others moves on, or is done.
moved :
    (f : Stage → ℕ) (before after : List Stage) (x y : Stage)
    → total f (before ++ y ∷ after) + f x ≡ total f (before ++ x ∷ after) + f y
moved f before after x y =
    omega (arith, total-append f before (x ∷ after), total-append f before (y ∷ after))

done :
    (f : Stage → ℕ) (before after : List Stage) (x : Stage)
    → total f (before ++ after) + f x ≡ total f (before ++ x ∷ after)
done f before after x =
    omega (arith, total-append f before (x ∷ after), total-append f before after)

same_gauge : (g n m : ℕ) → g ≡ n % 2 ^ 64 → m + 0 ≡ n + 0 → g ≡ m % 2 ^ 64
same_gauge g n m h e = omega (arith, h, e)

Step-IsConsistent : {s t : Server} → Step s t → IsConsistent s → IsConsistent t
unfolding try_admit count_shed enter_gauge leave_gauge drop_permit
Step-IsConsistent (shed c rs full) h = record { permits = h.permits; gauge = h.gauge }
Step-IsConsistent (admit c d rs taken) h =
    let (free, gauge, limit) = with_permits-some c d c.semaphore taken in
    let before = h.permits in
    let counted_before = h.gauge in
    record {
      permits = omega (arith, free, limit, before);
      gauge = omega (arith, gauge, counted_before);
    }
Step-IsConsistent (enter c before after) h =
    let p = h.permits in
    record {
      permits = omega (arith, p, moved holds before after admitted running);
      gauge =
          up c.in_flight (counted (before ++ admitted ∷ after)) h.gauge
          ∙ ap (λ n. n % 2 ^ 64) (omega (arith, moved counts before after admitted running));
    }
Step-IsConsistent (answer c before after) h =
    let p = h.permits in
    record {
      permits = omega (arith, p, moved holds before after running answered);
      gauge = same_gauge _ _ _ h.gauge (omega (arith, moved counts before after running answered));
    }
Step-IsConsistent (leave c before after) h =
    let p = h.permits in
    record {
      permits = omega (arith, p, done holds before after answered);
      gauge =
          down c.in_flight (counted (before ++ after))
            (h.gauge ∙ ap (λ n. n % 2 ^ 64) (sym (done counts before after answered)));
    }
Step-IsConsistent (unwind c before after) h =
    let p = h.permits in
    record {
      permits = omega (arith, p, moved holds before after running unwinding);
      gauge = down c.in_flight (counted (before ++ unwinding ∷ after)) (
          h.gauge
          ∙ ap (λ n. n % 2 ^ 64) (omega (arith, moved counts before after running unwinding)));
    }
Step-IsConsistent (release c before after) h =
    let p = h.permits in
    record {
      permits = omega (arith, p, done holds before after unwinding);
      gauge = same_gauge _ _ _ h.gauge (omega (arith, done counts before after unwinding));
    }

Step-max_concurrency :
    {s t : Server} → Step s t → t.control.max_concurrency ≡ s.control.max_concurrency
unfolding try_admit count_shed enter_gauge leave_gauge drop_permit
Step-max_concurrency (shed c rs full) = refl
Step-max_concurrency (admit c d rs taken) = (with_permits-some c d c.semaphore taken).2
Step-max_concurrency (enter c before after) = refl
Step-max_concurrency (answer c before after) = refl
Step-max_concurrency (leave c before after) = refl
Step-max_concurrency (unwind c before after) = refl
Step-max_concurrency (release c before after) = refl

Reachable-IsConsistent :
    {n : ℕ} {s : Server} → Reachable n s → IsConsistent s × (s.control.max_concurrency ≡ max n 1)
unfolding new
Reachable-IsConsistent start = (record { permits = omega arith; gauge = omega arith }, refl)
Reachable-IsConsistent (next r step) =
    let (h, limit) = Reachable-IsConsistent r in
    (Step-IsConsistent step h, Step-max_concurrency step ∙ limit)

inside-le : (rs : List Stage) → inside rs ≤ holding rs
inside-le [] = omega arith
inside-le (admitted ∷ rs) = omega (arith, inside-le rs)
inside-le (running ∷ rs) = omega (arith, inside-le rs)
inside-le (answered ∷ rs) = omega (arith, inside-le rs)
inside-le (unwinding ∷ rs) = omega (arith, inside-le rs)

with_permits-none : (c : AdmissionControl) (free : ℕ) → (with_permits c free ≡ none) ↔ (free ≡ 0)
with_permits-none c zero = (λ h. refl, λ h. refl)
with_permits-none c (suc free) = (λ h. absurd (cc h), λ h. absurd (omega (arith, h)))

-- Whatever the order of the steps of the requests, no more of them are in the inner stack than the
-- limit allows; one is shed exactly while as many hold a permit; every permit is free or held by one
-- of them; and the gauge counts those that have entered and not left it.
pub Reachable-bounded :
    (n : ℕ) (s : Server)
    → Reachable n s
    → (inside s.requests ≤ max n 1)
      × ((try_admit s.control ≡ none) ↔ (holding s.requests ≡ max n 1))
      × (s.control.semaphore + holding s.requests ≡ max n 1)
      × (s.control.in_flight ≡ counted s.requests % 2 ^ 64)
unfolding try_admit
Reachable-bounded n s r =
    let (h, limit) = Reachable-IsConsistent r in
    let permits = h.permits in
    let (to, from) = with_permits-none s.control s.control.semaphore in
    (
      omega (arith, inside-le s.requests, permits, limit),
      (
        λ full. let z = to full in omega (arith, z, permits, limit),
        λ held. from (omega (arith, held, permits, limit)),
      ),
      permits ∙ limit,
      h.gauge,
    )
