-- ===== src/Examples/Services.antt =====
-- Circuit breakers (src/plugin_manager/failover.rs) at sample values.
use skylet.Prelude.{◌≡◌, ◌<◌, List, refl, none, [], ◌∷◌, arith}
use skylet.Failover.{
  count_failure, should_allow_request, closed, open_, CircuitBreaker, call_breaker, primary_call,
}
use skylet.Failover.Overlap.{
  Event, clear, store, count, ask, finish, advance, advance_all, initial, advance_all-below,
}
use skylet.Failover.Recovery.{calls, calls-stay_open, AllRefused, call_breaker-recovers}

-- A breaker that opened at second 100, with a timeout of 30 seconds.
abbrev opened : CircuitBreaker
opened = record {
  failures = 2;
  failure_threshold = 2;
  timeout_seconds = 30;
  last_failure = 100;
  state = open_;
}

-- A success is recorded while another call fails; then the circuit opens, and closes after its timeout.
abbrev events : List Event
events =
    clear ∷ store 90 ∷ count 90 ∷ finish ∷ store 100 ∷ count 100 ∷ ask 140 ∷ clear ∷ finish ∷ []

advance_all-below_example : (advance_all events (initial 2 30)).breaker.failures < 2
unfolding advance advance_all count_failure should_allow_request
advance_all-below_example =
    advance_all-below 2 30 events (ground arith) (ground arith)
      (
        (λ c o. refl),
        (
          (λ c o. ground (arith, c, o)),
          (
            (λ c o. ground (arith, c, o)),
            (
              (λ c o. ground (arith, c, o)),
              (
                (λ c o. refl),
                (
                  (λ c o. refl),
                  ((λ c o. refl), ((λ c o. refl), ((λ c o. ground (arith, c, o)), tt))),
                ),
              ),
            ),
          ),
        ),
      )
      refl

calls-stay_open_example :
    ((calls none ((120, 121) ∷ (145, 145) ∷ []) opened).0.state ≡ open_)
    × AllRefused none (calls none ((120, 121) ∷ (145, 145) ∷ []) opened).1
calls-stay_open_example = calls-stay_open none ((120, 121) ∷ (145, 145) ∷ []) opened refl (
    (
      ground arith,
      ground arith,
      ground arith,
      ground arith,
      (ground arith, ground arith, ground arith, ground arith, tt),
    ))

call_breaker-recovers_example :
    call_breaker 130 130 none opened
    ≡ (record opened { failures = 0; state = closed }, primary_call)
call_breaker-recovers_example =
    call_breaker-recovers 130 130 none opened refl (ground arith) (ground arith)
