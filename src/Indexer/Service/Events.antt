-- ===== src/Indexer/Service/Events.antt =====
-- internal/indexer/service.go: the events of a block, saved and published.
use defi_demo.Base.{ℕ, List, [], ◌∷◌, All, All-append, All-map, Bool-cases, inl, inr}
use defi_demo.Types.{BlockHeader, ChainEvent}
use defi_demo.Indexer.Parser.{Ethereum, Log, Parsed-cases, parse_log}
use defi_demo.Indexer.Consumer.{EventStore, StoreLaws, process_event}
use defi_demo.Indexer.Service.{Published, handle_parsed, handle_log, handle_logs}

module _ (db : EventStore) (laws : StoreLaws db) (eth : Ethereum) (h : BlockHeader) where
  open db use {Store}

  -- The store holds every event that was published.
  unfoldable pub AllSaved : Store × Published → Type 0
  AllSaved (s, out) = All (λ p. laws.Saved s p.2) out

  handle_parsed-AllSaved :
      (ev : ChainEvent) (st : Store × Published)
      → AllSaved st
      → AllSaved (handle_parsed db eth h ev st)
  unfolding handle_parsed process_event AllSaved
  handle_parsed-AllSaved ev (s, out) a =
      let ev' = record ev { timestamp = h.timestamp } in
      let kept =
        All-map (λ (p : ℕ × ℕ × ChainEvent). laws.Saved s p.2)
          (λ p. laws.Saved (db.save_event ev' s).1 p.2) (λ p k. laws.save_event_keeps ev' p.2 s k)
          out a in
      elim (Bool-cases (db.save_event ev' s).0) [
        | inl ok ↦ rw ok (
            All-append (λ (p : ℕ × ℕ × ChainEvent). laws.Saved (db.save_event ev' s).1 p.2) out _
              kept (laws.save_event-Saved ev' s ok, tt))
        | inr failed ↦ rw failed kept
      ]

  handle_log-AllSaved :
      (now : ℕ) (log : Log) (st : Store × Published)
      → AllSaved st
      → AllSaved (handle_log db eth h now log st)
  unfolding handle_log AllSaved
  handle_log-AllSaved now log st a = elim (Parsed-cases (parse_log eth h.chain_id now log)) [
    | inl (ev, e) ↦ rw (e, handle_log) (handle_parsed-AllSaved ev st a)
    | inr (x, e) ↦ rw (e, handle_log) a
  ]

  -- If the store holds every event that was published, it still does after the logs of a block are
  -- handled, whichever calls of the store fail: an event is published only after it is saved.
  pub handle_logs-AllSaved :
      (now : ℕ) (logs : List Log) (st : Store × Published)
      → AllSaved st
      → AllSaved (handle_logs db eth h now logs st)
  unfolding handle_logs
  handle_logs-AllSaved now [] st a = a
  handle_logs-AllSaved now (log ∷ logs) st a =
      handle_logs-AllSaved now logs (handle_log db eth h now log st)
        (handle_log-AllSaved now log st a)
