-- ===== src/Application/Reporter/Journal.antt =====
-- tunnel_sync/application/reporting.py: the buffers of the reporter against journals that forget nothing.
use cf_docker_tunnel_sync.Base.{String, List, [], ◌∷◌, ◌++◌, ◌≡◌, refl, sym, ap, ◌∙◌}
use cf_docker_tunnel_sync.Application.Executor.{Note}
use cf_docker_tunnel_sync.Application.Reporter.{
  Event, HistoryEntry, Board, log_entry, add_log, event_entry, record_event, record_sync_history,
  update_overview_metrics, message_of, record_operation, Call, log, event, history, overview,
  operation, call, calls,
}
use cf_docker_tunnel_sync.Application.Reporter.Ring.{push, push_all, take, newest, push_all-newest}

newest-append : {E : Type 0} (xs ys zs : List E) → newest (xs ++ ys) zs ≡ newest ys (newest xs zs)
newest-append [] ys zs = refl
newest-append (x ∷ xs) ys zs = newest-append xs ys (x ∷ zs)

push-newest :
    {E : Type 0} (limit : _) (x : E) (xs : List E)
    → push limit x (take limit xs) ≡ take limit (x ∷ xs)
unfolding push_all
push-newest limit x xs = push_all-newest limit (x ∷ []) xs

-- The buffers show the newest entries of three journals, the newest first.
pub record Shows {A : Type 0} (lines : List String) (events : List Event)
    (entries : List HistoryEntry) (s : Board A) : Type 0 where
  pub logs_shown : s.logs ≡ take 100 lines
  pub events_shown : s.events ≡ take 100 events
  pub history_shown : s.sync_history ≡ take 20 entries

module _ {A : Type 0} (redact : String → String) (reason_text : Note → String) where
  -- What a call writes into each journal.
  abbrev pub lines_of : Call redact reason_text A → List String
  lines_of (log at msg) = log_entry redact reason_text at msg ∷ []
  lines_of (operation at_event at_line op) =
      log_entry redact reason_text at_line
        (message_of redact reason_text op op.resource op.status).line
      ∷ []
  lines_of _ = []

  abbrev pub events_of : Call redact reason_text A → List Event
  events_of (event at severity event_type service message) =
      event_entry redact reason_text at severity event_type service message ∷ []
  events_of (operation at_event at_line op) =
      let m = message_of redact reason_text op op.resource op.status in
      event_entry redact reason_text at_event m.severity m.event_type m.service m.message ∷ []
  events_of _ = []

  abbrev pub entries_of : Call redact reason_text A → List HistoryEntry
  entries_of (history entry) = entry ∷ []
  entries_of _ = []

  abbrev pub all_of :
      {E : Type 0}
      → (Call redact reason_text A → List E)
      → List (Call redact reason_text A)
      → List E
  all_of of [] = []
  all_of of (c ∷ cs) = of c ++ all_of of cs

  call-Shows :
      (c : Call redact reason_text A) (lines : List String) (events : List Event)
      (entries : List HistoryEntry) (s : Board A)
      → Shows lines events entries s
      → Shows
          (newest (lines_of c) lines)
          (newest (events_of c) events)
          (newest (entries_of c) entries)
          (call redact reason_text c s)
  unfolding call add_log record_event record_sync_history update_overview_metrics record_operation
  call-Shows (log at msg) lines events entries s h = record {
    logs_shown = ap (push 100 _) h.logs_shown ∙ push-newest 100 _ lines;
    events_shown = h.events_shown;
    history_shown = h.history_shown;
  }
  call-Shows (event at severity event_type service message) lines events entries s h = record {
    logs_shown = h.logs_shown;
    events_shown = ap (push 100 _) h.events_shown ∙ push-newest 100 _ events;
    history_shown = h.history_shown;
  }
  call-Shows (history entry) lines events entries s h = record {
    logs_shown = h.logs_shown;
    events_shown = h.events_shown;
    history_shown = ap (push 20 _) h.history_shown ∙ push-newest 20 _ entries;
  }
  call-Shows (overview answer) lines events entries s h = record {
    logs_shown = h.logs_shown;
    events_shown = h.events_shown;
    history_shown = h.history_shown;
  }
  call-Shows (operation at_event at_line op) lines events entries s h = record {
    logs_shown = ap (push 100 _) h.logs_shown ∙ push-newest 100 _ lines;
    events_shown = ap (push 100 _) h.events_shown ∙ push-newest 100 _ events;
    history_shown = h.history_shown;
  }

  -- If the buffers show the newest 100 log lines, 100 events and 20 entries of journals that forget
  -- nothing, then they do so after any calls of the reporter, each of which writes its line, its event
  -- and its entry into the journals.
  pub calls-Shows :
      (cs : List (Call redact reason_text A)) (lines : List String) (events : List Event)
      (entries : List HistoryEntry) (s : Board A)
      → Shows lines events entries s
      → Shows
          (newest (all_of lines_of cs) lines)
          (newest (all_of events_of cs) events)
          (newest (all_of entries_of cs) entries)
          (calls redact reason_text cs s)
  unfolding calls
  calls-Shows [] lines events entries s h = h
  calls-Shows (c ∷ cs) lines events entries s h =
      let rest = calls-Shows cs _ _ _ _ (call-Shows c lines events entries s h) in
      record {
        logs_shown =
            rest.logs_shown
            ∙ ap (take 100) (sym (newest-append (lines_of c) (all_of lines_of cs) lines));
        events_shown =
            rest.events_shown
            ∙ ap (take 100) (sym (newest-append (events_of c) (all_of events_of cs) events));
        history_shown =
            rest.history_shown
            ∙ ap (take 20) (sym (newest-append (entries_of c) (all_of entries_of cs) entries));
      }
