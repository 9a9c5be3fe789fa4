-- ===== src/Overload/Tests.antt =====
-- src/overload.rs: a limit of one, with two requests.
use solid_server_rs.Prelude.{
  ◌+◌, ◌%◌, ◌^◌, ◌≤◌, max, ◌≡◌, ◌↔◌, refl, none, some, [], ◌∷◌, codes, trim, trim_start, trim_end,
  drop_while, is_whitespace, parse_u64, parse_digits,
}
use solid_server_rs.Overload.{
  AdmissionControl, new, try_admit, enter_gauge, count_shed, parse_max_concurrency, running, Server,
  shed, admit, enter, Reachable, start, next,
}
use solid_server_rs.Overload.Admission.{inside, holding, counted, Reachable-bounded}

abbrev taken : AdmissionControl
taken = record { semaphore = 0; in_flight = 0; shed_total = 0; max_concurrency = 1 }

-- One request is in the inner stack, another one has been shed.
abbrev busy : Server
busy = record { control = count_shed (enter_gauge taken); requests = running ∷ [] }

busy-Reachable : Reachable 1 busy
unfolding try_admit enter_gauge new
busy-Reachable =
    next (next (next start (admit (new 1) taken [] refl)) (enter taken [] []))
      (shed (enter_gauge taken) (running ∷ []) refl)

zero_is_ignored : parse_max_concurrency (some (codes " 0 ")) ≡ 10000
unfolding parse_max_concurrency trim trim_start trim_end drop_while is_whitespace parse_u64
    parse_digits
zero_is_ignored = refl

Reachable-bounded_example :
    (inside busy.requests ≤ max 1 1)
    × ((try_admit busy.control ≡ none) ↔ (holding busy.requests ≡ max 1 1))
    × (busy.control.semaphore + holding busy.requests ≡ max 1 1)
    × (busy.control.in_flight ≡ counted busy.requests % 2 ^ 64)
Reachable-bounded_example = Reachable-bounded 1 busy busy-Reachable
