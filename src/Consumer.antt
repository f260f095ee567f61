-- ===== src/Consumer.antt =====
-- internal/services/scrape_consumer.go: the consumer of the stream of requests. What it does to Redis is
-- the list of its commands, in order; the answers to the commands are not read. The times, the
-- lengths of streams and the logging are left out. A run of the scraper is its Outcome.
pub mod Trace
pub mod Examples
use Prim.Native.String.{String}
use text.Mathlib.Text.{◌==◌ as str_eq}
use stat_tree_server.Base.{
  ℕ, Bool, true, false, List, [], ◌∷◌, ◌++◌, Option, none, some, if◌then◌else◌,
}
use stat_tree_server.Scrape.{
  Phase, fetch, insert, prizes, RunError, fetch_failed, insert_failed, ScrapeResult, Outcome,
}

-- A value of a message or of a field.
pub data Value : Type 0 where
  word : String → Value
  number : ℕ → Value

pub record XMessage : Type 0 where
  pub id : String
  pub values : List (String × Value)

-- "scraper:status:" and "scraper:events:" with a request, and "scraper:latest"
pub data RedisKey : Type 0 where
  status_key events_key : String → RedisKey
  latest_key : RedisKey

pub data Command : Type 0 where
  set : RedisKey → String → Command
  hset xadd : RedisKey → List (String × Value) → Command
  expire : RedisKey → Command
  xack : String → Command

abbrev pub is_empty : String → Bool
is_empty s = str_eq s ""

-- `msg.Values[key].(string)`, and "" if that fails
unfoldable pub text_value : String → List (String × Value) → String
text_value key [] = ""
text_value key ((k, word s) ∷ values) =
    let rest = text_value key values in if str_eq k key then s else rest
text_value key ((k, number n) ∷ values) =
    let rest = text_value key values in if str_eq k key then "" else rest

abbrev pub or_text : String → String → String
or_text a b = if is_empty a then b else a

abbrev pub phase_name : Phase → String
phase_name fetch = "fetch"
phase_name insert = "insert"
phase_name prizes = "prizes"

-- the text of the errors that RunOnce wraps, without their causes
abbrev pub error_text : RunError → String
error_text fetch_failed = "fetch lottery data"
error_text insert_failed = "insert new draws"

-- onPhase
unfoldable pub on_phase : String → Phase → List Command
on_phase req_id phase =
    hset (status_key req_id) (("phase", word (phase_name phase)) ∷ [])
    ∷ xadd (events_key req_id)
        (("event", word "progress") ∷ ("phase", word (phase_name phase)) ∷ [])
    ∷ expire (events_key req_id)
    ∷ []

unfoldable pub on_phases : String → List Phase → List Command
unfolding on_phase
on_phases req_id [] = []
on_phases req_id (phase ∷ phases) = on_phase req_id phase ++ on_phases req_id phases

unfoldable pub report : String → ScrapeResult → Option RunError → List Command
report req_id res (some e) =
    hset (status_key req_id)
      (("status", word "error") ∷ ("phase", word "error") ∷ ("error", word (error_text e)) ∷ [])
    ∷ xadd (events_key req_id) (("event", word "error") ∷ ("message", word (error_text e)) ∷ [])
    ∷ []
report req_id res none =
    hset (status_key req_id) (
      ("status", word "done")
      ∷ ("phase", word "completed")
      ∷ ("inserted", number res.inserted)
      ∷ ("prizes_written", number res.prizes_written)
      ∷ [])
    ∷ xadd (events_key req_id) (
        ("event", word "done")
        ∷ ("inserted", number res.inserted)
        ∷ ("prizes_written", number res.prizes_written)
        ∷ [])
    ∷ []

-- the request that a message stands for
unfoldable pub request_of : XMessage → String
unfolding text_value
request_of msg = or_text (text_value "request_id" msg.values) (text_value "id" msg.values)

-- ProcessMessage, around the run of the scraper
unfoldable pub process_message : {S C : Type 0} → XMessage → Outcome S C → List Command
unfolding request_of on_phases report
process_message msg o =
    let req_id = or_text (request_of msg) msg.id in
    set latest_key req_id
    ∷ hset (status_key req_id)
        (("request_id", word req_id) ∷ ("status", word "running") ∷ ("phase", word "queued") ∷ [])
    ∷ expire (status_key req_id)
    ∷ (on_phases req_id o.phases
        ++ report req_id o.result o.error
        ++ expire (status_key req_id) ∷ expire (events_key req_id) ∷ xack msg.id ∷ [])

-- what DrainPending does with a message
unfoldable pub drain_message : XMessage → List Command
unfolding request_of
drain_message msg =
    let req_id = request_of msg in
    if is_empty req_id
    then xack msg.id ∷ []
    else hset (status_key req_id)
        (("status", word "interrupted") ∷ ("error", word "interrupted by server restart") ∷ [])
      ∷ expire (status_key req_id)
      ∷ xack msg.id
      ∷ []

unfoldable pub drain_messages : List XMessage → List Command
unfolding drain_message
drain_messages [] = []
drain_messages (msg ∷ msgs) = drain_message msg ++ drain_messages msgs

-- DrainPending; `none` is an error of the read other than redis.Nil, which gives no message
unfoldable pub drain_pending : Option (List XMessage) → List Command
unfolding drain_messages
drain_pending none = []
drain_pending (some msgs) = drain_messages msgs

module _ {S C : Type 0} (run : S → C → Outcome S C) where
  -- the loop over the messages of a read
  unfoldable pub process_messages : List XMessage → S → C → List Command × S × C
  unfolding process_message
  process_messages [] s c = ([], s, c)
  process_messages (msg ∷ msgs) s c =
      let o = run s c in
      let (commands, s', c') = process_messages msgs o.state o.cache in
      (process_message msg o ++ commands, s', c')

  -- the loop, over what its reads give until it is stopped; a read that fails gives `none`
  unfoldable pub consume : List (Option (List XMessage)) → S → C → List Command × S × C
  unfolding process_messages
  consume [] s c = ([], s, c)
  consume (none ∷ reads) s c = consume reads s c
  consume (some msgs ∷ reads) s c =
      let (commands, s', c') = process_messages msgs s c in
      let (rest, s'', c'') = consume reads s' c' in (commands ++ rest, s'', c'')
