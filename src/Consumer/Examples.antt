-- ===== src/Consumer/Examples.antt =====
-- Two messages for internal/services/scrape_consumer.go, and a run that fails.
use stat_tree_server.Base.{ℕ, suc, ◌≡◌, List, [], ◌∷◌, Option, none, some}
use stat_tree_server.Scrape.{fetch, fetch_failed, Outcome}
use stat_tree_server.Consumer.{
  word, number, XMessage, request_of, process_message, consume, text_value,
}
use stat_tree_server.Consumer.Trace.{acks, acks-consume, IsReported, process_message-IsReported}

abbrev message : XMessage
message = record { id = "1-0"; values = ("request_id", word "abc") ∷ [] }

abbrev bare_message : XMessage
bare_message = record { id = "2-0"; values = ("request_id", number 7) ∷ [] }

-- A run that fails to fetch, and counts the runs.
abbrev failing_run : ℕ → ℕ → Outcome ℕ ℕ
failing_run s c = record {
  result = record { inserted = 0; prizes_written = 0 };
  error = some fetch_failed;
  phases = fetch ∷ [];
  state = suc s;
  cache = c;
}

process_message-IsReported_example :
    IsReported "abc"
      (failing_run 0 0).result
      (failing_run 0 0).error
      (process_message message (failing_run 0 0))
unfolding request_of text_value
process_message-IsReported_example = process_message-IsReported message (failing_run 0 0)

abbrev reads : List (Option (List XMessage))
reads = some (message ∷ []) ∷ none ∷ some (bare_message ∷ []) ∷ []

acks-consume_example : acks (consume failing_run reads 0 0).0 ≡ "1-0" ∷ "2-0" ∷ []
acks-consume_example = acks-consume failing_run reads 0 0
