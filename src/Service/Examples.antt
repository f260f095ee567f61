-- ===== src/Service/Examples.antt =====
-- Requests to the handlers of internal/services/lottery_service.go, on a new manager and a table of draws.
use stat_tree_server.Base.{ltb, leb, ◌+◌, ◌-◌, ◌*◌, ◌/◌, ℕ, [], ◌∷◌, none, arith, All}
use stat_tree_server.Base.Sort.{sort_stable, insert}
use stat_tree_server.Models.{Float64}
use stat_tree_server.Tree.Frequency.{Ascends}
use stat_tree_server.Archive.{LotteryArchive}
use stat_tree_server.Archive.Groups.{numbers_of}
use stat_tree_server.Manager.Cache.{LotteryManager, new_manager}
use stat_tree_server.Manager.Reach.{new_manager-IsCache}
use stat_tree_server.Service.{
  GetStatisticsRequest, GenerateFormRequest, FormRequest, analyze, score_form_request, weak, strong,
}
use stat_tree_server.Repository.Examples.{server, server_law, rows, date_order}
use stat_tree_server.Service.Table.{
  repo_of, IsRange, IsFailing, analyze_table, score_form_table, simulate_table,
}
use stat_tree_server.Service.Reports.{HasReport, analysis_of, Never, TooShort}
use stat_tree_server.Archive.Score.{score}
use stat_tree_server.Simulate.Session.{SimulateRequest}
use stat_tree_server.Service.Backtest.{HasBacktest, simulate_request}
use stat_tree_server.Service.Load.{IsDrawn}

abbrev manager : LotteryManager (LotteryArchive ℕ)
manager = new_manager

abbrev statistics_request : GetStatisticsRequest
statistics_request = record { how_many = 3; form_type = 2; window = none; strength = weak }

abbrev form_request : GenerateFormRequest
form_request = record {
  how_many = 60;
  form_type = 6;
  will_be = 5 ∷ 7 ∷ [];
  window = none;
  strength = strong;
}

rows-Ascends : All (Ascends 0) (numbers_of (date_order rows))
unfolding sort_stable insert
rows-Ascends = ground arith

abbrev report_request : FormRequest
report_request = record { form = 1 ∷ 3 ∷ 6 ∷ []; window = none }

analyze_table_example :
    HasReport
      (IsRange server server_law rows)
      (IsFailing server server_law rows)
      analysis_of
      Never
      report_request
      (analyze (repo_of server server_law rows) report_request manager)
analyze_table_example =
    analyze_table server server_law rows report_request manager rows-Ascends
      (new_manager-IsCache (IsDrawn (IsRange server server_law rows)))

-- Whole numbers in place of floating-point ones.
abbrev whole : Float64
whole = record {
  F = ℕ;
  of_nat = λ n. n;
  add = λ a b. a + b;
  sub = λ a b. a - b;
  mul = λ a b. a * b;
  div = λ a b. a / b;
  lt = ltb;
  le = leb;
}

score_form_table_example :
    HasReport
      (IsRange server server_law rows)
      (IsFailing server server_law rows)
      (score whole 37)
      TooShort
      report_request
      (score_form_request whole (repo_of server server_law rows) report_request manager)
score_form_table_example =
    score_form_table whole server server_law rows report_request manager (omega arith) rows-Ascends
      (new_manager-IsCache (IsDrawn (IsRange server server_law rows)))

abbrev backtest_request : SimulateRequest ℕ
backtest_request = record {
  form = 1 ∷ 2 ∷ 3 ∷ 4 ∷ 5 ∷ 6 ∷ 7 ∷ [];
  strong = 3;
  archive_window = none;
  simulate_window = none;
  ticket_cost = 0;
  prize_amounts = [];
}

simulate_table_example :
    HasBacktest whole
      (IsRange server server_law rows)
      (IsFailing server server_law rows)
      backtest_request
      (simulate_request whole (repo_of server server_law rows) backtest_request manager)
simulate_table_example =
    simulate_table whole server server_law rows backtest_request manager
      (new_manager-IsCache (IsDrawn (IsRange server server_law rows)))
