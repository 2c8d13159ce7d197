-- ===== src/Health/Tests.antt =====
-- A healthy database and a client that panics, whose checks finish the other way round.
use mathlib.Core.List.{Permᴰ}
use kubernetes_cost_analyzer.Common.{◌≡◌, ◌↔◌, refl, none, [], ◌∷◌, map, All}
use kubernetes_cost_analyzer.Common.Int.{pos}
use kubernetes_cost_analyzer.Common.Text.{raw}
use kubernetes_cost_analyzer.Health.{
  Checker, returned, panicked, status_up, status_down, checked, run_one, write_result, write_all,
  overall, run, new_aggregator, recovered,
}
use kubernetes_cost_analyzer.Health.Schedules.{IsUsable, indices, run_complete}

abbrev database : Checker
database = record { name = "postgres"; name_panic = none; check = returned; latency_ms = pos 3 }

abbrev client : Checker
client = record {
  name = "prometheus";
  name_panic = none;
  check = panicked "nil";
  latency_ms = pos 1;
}

last_first : Permᴰ (indices 2) (1 ∷ 0 ∷ [])
last_first = Permᴰ.swap refl refl

contained : run (1 ∷ 0 ∷ []) (new_aggregator (pos 0) (database ∷ client ∷ [])) ≡ record {
  status = status_down;
  checks =
      record { name = "postgres"; status = status_up; error = raw ""; latency_ms = pos 3 }
      ∷ recovered "prometheus" client "nil"
      ∷ [];
}
unfolding run new_aggregator overall write_all write_result run_one checked
contained = refl

run_complete_example :
    let report = run (1 ∷ 0 ∷ []) (new_aggregator (pos 0) (database ∷ client ∷ [])) in
    (report.checks ≡ map run_one (database ∷ client ∷ []))
    × ((report.status ≡ status_up) ↔ All IsUsable (database ∷ client ∷ []))
run_complete_example = run_complete (1 ∷ 0 ∷ []) (database ∷ client ∷ []) (pos 0) last_first
