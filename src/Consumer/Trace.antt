-- ===== src/Consumer/Trace.antt =====
-- What the commands of internal/services/scrape_consumer.go leave in Redis: the messages that they
-- acknowledge, and the fields of the status of a request.
use Prim.Native.String.{String}
use text.Mathlib.Text.{◌==◌ as str_eq}
use text.Mathlib.TextPositions.{eq_refl}
use stat_tree_server.Base.{
  ◌≡◌, refl, sym, ap, ◌∙◌, List, [], ◌∷◌, ◌++◌, Option, none, some, if◌then◌else◌,
}
use stat_tree_server.Base.Options.{or_else}
use stat_tree_server.Scrape.{Phase, RunError, ScrapeResult, Outcome}
use stat_tree_server.Consumer.{
  Value, word, number, XMessage, status_key, events_key, latest_key, Command, set, hset, xadd,
  expire, xack, or_text, error_text, on_phase, on_phases, report, request_of, process_message,
  process_messages, consume,
}

-- The acknowledged messages.
unfoldable pub acks : List Command → List String
acks [] = []
acks (set k v ∷ cs) = acks cs
acks (hset k fields ∷ cs) = acks cs
acks (xadd k fields ∷ cs) = acks cs
acks (expire k ∷ cs) = acks cs
acks (xack id ∷ cs) = id ∷ acks cs

acks-append : (cs ds : List Command) → acks (cs ++ ds) ≡ acks cs ++ acks ds
unfolding acks
acks-append [] ds = refl
acks-append (set k v ∷ cs) ds = acks-append cs ds
acks-append (hset k fields ∷ cs) ds = acks-append cs ds
acks-append (xadd k fields ∷ cs) ds = acks-append cs ds
acks-append (expire k ∷ cs) ds = acks-append cs ds
acks-append (xack id ∷ cs) ds = ap (◌∷◌ id) (acks-append cs ds)

acks-on_phases : (req_id : String) (phases : List Phase) → acks (on_phases req_id phases) ≡ []
unfolding acks on_phases on_phase
acks-on_phases req_id [] = refl
acks-on_phases req_id (phase ∷ phases) = acks-on_phases req_id phases

acks-report :
    (req_id : String) (res : ScrapeResult) (e : Option RunError) → acks (report req_id res e) ≡ []
unfolding acks report
acks-report req_id res none = refl
acks-report req_id res (some e) = refl

acks-process_message :
    {S C : Type 0} (msg : XMessage) (o : Outcome S C) → acks (process_message msg o) ≡ msg.id ∷ []
unfolding acks process_message
acks-process_message msg o =
    let req_id = or_text (request_of msg) msg.id in
    let end : List Command =
      expire (status_key req_id) ∷ expire (events_key req_id) ∷ xack msg.id ∷ [] in
    let before = on_phases req_id o.phases ++ report req_id o.result o.error in
    acks-append before end
    ∙ ap (λ l. l ++ msg.id ∷ [])
        (acks-append (on_phases req_id o.phases) (report req_id o.result o.error)
          ∙ ap (λ l. l ++ acks (report req_id o.result o.error)) (acks-on_phases req_id o.phases)
          ∙ acks-report req_id o.result o.error)

abbrev pub ids_of : List XMessage → List String
ids_of [] = []
ids_of (msg ∷ msgs) = msg.id ∷ ids_of msgs

-- The messages of the reads that do not fail.
abbrev pub read_ids : List (Option (List XMessage)) → List String
read_ids [] = []
read_ids (none ∷ reads) = read_ids reads
read_ids (some msgs ∷ reads) = ids_of msgs ++ read_ids reads

module _ {S C : Type 0} (run : S → C → Outcome S C) where
  acks-process_messages :
      (msgs : List XMessage) (s : S) (c : C) → acks (process_messages run msgs s c).0 ≡ ids_of msgs
  unfolding process_messages acks
  acks-process_messages [] s c = refl
  acks-process_messages (msg ∷ msgs) s c =
      let o = run s c in
      acks-append (process_message msg o) (process_messages run msgs o.state o.cache).0
      ∙ ap (λ l. l ++ acks (process_messages run msgs o.state o.cache).0)
          (acks-process_message msg o)
      ∙ ap (◌∷◌ msg.id) (acks-process_messages msgs o.state o.cache)

  -- The consumer acknowledges every message that it has read, once and in order, however the runs of
  -- the scraper end.
  pub acks-consume :
      (reads : List (Option (List XMessage))) (s : S) (c : C)
      → acks (consume run reads s c).0 ≡ read_ids reads
  unfolding consume acks
  acks-consume [] s c = refl
  acks-consume (none ∷ reads) s c = acks-consume reads s c
  acks-consume (some msgs ∷ reads) s c =
      let (commands, s', c') = process_messages run msgs s c in
      acks-append commands (consume run reads s' c').0
      ∙ ap (λ l. l ++ acks (consume run reads s' c').0) (acks-process_messages msgs s c)
      ∙ ap (λ l. ids_of msgs ++ l) (acks-consume reads s' c')

abbrev field_of : String → List (String × Value) → Option Value
field_of f [] = none
field_of f ((k, v) ∷ fields) = or_else (field_of f fields) (if str_eq k f then some v else none)

-- The last value that a list of commands gives to a field of the status of a request.
unfoldable pub last_field : String → String → List Command → Option Value
last_field req_id f [] = none
last_field req_id f (hset (status_key id) fields ∷ cs) =
    or_else (last_field req_id f cs) (if str_eq id req_id then field_of f fields else none)
last_field req_id f (hset (events_key id) fields ∷ cs) = last_field req_id f cs
last_field req_id f (hset latest_key fields ∷ cs) = last_field req_id f cs
last_field req_id f (set k v ∷ cs) = last_field req_id f cs
last_field req_id f (xadd k fields ∷ cs) = last_field req_id f cs
last_field req_id f (expire k ∷ cs) = last_field req_id f cs
last_field req_id f (xack id ∷ cs) = last_field req_id f cs

or_else_nothing : (a : Option Value) → or_else a none ≡ a
or_else_nothing none = refl
or_else_nothing (some x) = refl

or_else_chain : (a b c : Option Value) → or_else (or_else a b) c ≡ or_else a (or_else b c)
or_else_chain none b c = refl
or_else_chain (some x) b c = refl

last_field-append :
    (req_id f : String) (cs ds : List Command)
    → last_field req_id f (cs ++ ds) ≡ or_else (last_field req_id f ds) (last_field req_id f cs)
unfolding last_field
last_field-append req_id f [] ds = sym (or_else_nothing (last_field req_id f ds))
last_field-append req_id f (hset (status_key id) fields ∷ cs) ds =
    ap (λ o. or_else o (if str_eq id req_id then field_of f fields else none))
      (last_field-append req_id f cs ds)
    ∙ or_else_chain (last_field req_id f ds) (last_field req_id f cs) _
last_field-append req_id f (hset (events_key id) fields ∷ cs) ds = last_field-append req_id f cs ds
last_field-append req_id f (hset latest_key fields ∷ cs) ds = last_field-append req_id f cs ds
last_field-append req_id f (set k v ∷ cs) ds = last_field-append req_id f cs ds
last_field-append req_id f (xadd k fields ∷ cs) ds = last_field-append req_id f cs ds
last_field-append req_id f (expire k ∷ cs) ds = last_field-append req_id f cs ds
last_field-append req_id f (xack id ∷ cs) ds = last_field-append req_id f cs ds

-- The fields that tell how a run has ended.
abbrev pub IsReported : String → ScrapeResult → Option RunError → List Command → Type 0
IsReported req_id res none cs =
    (last_field req_id "status" cs ≡ some (word "done"))
    × (last_field req_id "phase" cs ≡ some (word "completed"))
    × (last_field req_id "inserted" cs ≡ some (number res.inserted))
    × (last_field req_id "prizes_written" cs ≡ some (number res.prizes_written))
IsReported req_id res (some e) cs =
    (last_field req_id "status" cs ≡ some (word "error"))
    × (last_field req_id "phase" cs ≡ some (word "error"))
    × (last_field req_id "error" cs ≡ some (word (error_text e)))

last_field-report :
    (req_id id f : String) (res : ScrapeResult) (e : Option RunError) (v : Value)
    (before : List Command)
    → last_field req_id f (report req_id res e) ≡ some v
    → last_field req_id f (
        before
        ++ report req_id res e
        ++ expire (status_key req_id) ∷ expire (events_key req_id) ∷ xack id ∷ [])
      ≡ some v
unfolding last_field
last_field-report req_id id f res e v before h =
    let end : List Command =
      expire (status_key req_id) ∷ expire (events_key req_id) ∷ xack id ∷ [] in
    last_field-append req_id f (before ++ report req_id res e) end
    ∙ last_field-append req_id f before (report req_id res e)
    ∙ ap (λ o. or_else o (last_field req_id f before)) h

report-IsReported :
    (req_id : String) (res : ScrapeResult) (e : Option RunError)
    → IsReported req_id res e (report req_id res e)
unfolding report last_field
report-IsReported req_id res none = rw (eq_refl req_id) (refl, refl, refl, refl)
report-IsReported req_id res (some e) = rw (eq_refl req_id) (refl, refl, refl)

end-IsReported :
    (req_id id : String) (res : ScrapeResult) (e : Option RunError) (before : List Command)
    → IsReported req_id res e (
        before
        ++ report req_id res e
        ++ expire (status_key req_id) ∷ expire (events_key req_id) ∷ xack id ∷ [])
end-IsReported req_id id res none before =
    let (status, phase, inserted, written) = report-IsReported req_id res none in
    (
      last_field-report req_id id "status" res none _ before status,
      last_field-report req_id id "phase" res none _ before phase,
      last_field-report req_id id "inserted" res none _ before inserted,
      last_field-report req_id id "prizes_written" res none _ before written,
    )
end-IsReported req_id id res (some e) before =
    let (status, phase, error) = report-IsReported req_id res (some e) in
    (
      last_field-report req_id id "status" res (some e) _ before status,
      last_field-report req_id id "phase" res (some e) _ before phase,
      last_field-report req_id id "error" res (some e) _ before error,
    )

-- After ProcessMessage the status of the request is "done", with the numbers of draws and prizes of
-- the run, or "error", with the text of its error, as the run has ended.
pub process_message-IsReported :
    {S C : Type 0} (msg : XMessage) (o : Outcome S C)
    → IsReported (or_text (request_of msg) msg.id) o.result o.error (process_message msg o)
unfolding process_message
process_message-IsReported msg o =
    let req_id = or_text (request_of msg) msg.id in
    end-IsReported req_id msg.id o.result o.error (
      set latest_key req_id
      ∷ hset (status_key req_id)
          (("request_id", word req_id) ∷ ("status", word "running") ∷ ("phase", word "queued") ∷ [])
      ∷ expire (status_key req_id)
      ∷ on_phases req_id o.phases)
