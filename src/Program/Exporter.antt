-- ===== src/Program/Exporter.antt =====
-- The server of the metrics (tap_aggregator/src/metrics.rs).
use Prim.Native.String
use timeline_aggregation_pro.Base.{ℕ, String, ◌≡◌, ◌↔◌, refl, arith, Result, ok, err}
use timeline_aggregation_pro.Core.Action.{Outcome, done, panic}
use timeline_aggregation_pro.Server.Listen.{Failure}

-- A status of HTTP, by its number.
abbrev pub StatusCode : Type 0
StatusCode = ℕ

-- `handler_metrics`, of what the encoder of the crate prometheus makes of the counters.
unfoldable pub handler_metrics : Result Failure String → StatusCode × String
handler_metrics (ok s) = (200, s)
handler_metrics (err e) = (500, String.◌++◌ "Error encoding metrics: " e)

unfoldable pub handler_404 : StatusCode × String
handler_404 = (404, "404 Not Found")

-- `_run_server`, of how the web server's run ends: by itself, with an error, or in a panic, as
-- where the port cannot be bound.
unfoldable pub run_server_ : Outcome Failure (Unit {0}) → Outcome Failure (Unit {0})
run_server_ (done (ok tt)) = done (ok tt)
run_server_ (done (err e)) = panic
run_server_ panic = panic

-- What becomes of the whole process.
pub data Process : Type 0 where
  goes_on aborted : Process

abbrev caught : Outcome Failure (Unit {0}) → Process
caught (done r) = goes_on
caught panic = aborted

-- `run_server`
unfoldable pub run_server : Outcome Failure (Unit {0}) → Process
unfolding run_server_
run_server served = caught (run_server_ served)

-- The process goes on without the metrics exactly when their server has ended without an error.
pub run_server_iff :
    (served : Outcome Failure (Unit {0})) → (run_server served ≡ goes_on) ↔ (served ≡ done (ok tt))
unfolding run_server
run_server_iff (done (ok tt)) = (λ h. refl, λ h. refl)
run_server_iff (done (err e)) = (λ h. absurd (ground arith), λ h. absurd (ground arith))
run_server_iff panic = (λ h. absurd (ground arith), λ h. absurd (ground arith))
