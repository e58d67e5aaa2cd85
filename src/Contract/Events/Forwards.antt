-- ===== src/Contract/Events/Forwards.antt =====
-- For the subscription: which events it forwards.
use ssv_oracle.Prelude.{
  ℕ, suc, ◌≡◌, ◌<◌, refl, ap, ◌∙◌, Bool, true, false, not, none, some, List, [], ◌∷◌, leb, ◌&&◌,
  ◌++◌, if◌then◌else◌, length, get_elem?, u64, u64_mod, Bool-cases, inl, inr, arith,
}
use ssv_oracle.Contract.Events.{
  WsLog, RootCommittedEvent, parse_root_committed_event, WsSignal, context_done, logs_closed,
  subscription_ended, log, Forwarded, on_log, process_root_committed_logs,
}

-- A log of the contract's event, `RootCommitted(bytes32 indexed merkleRoot, uint64 indexed blockNum)`.
abbrev pub log_of : ℕ → RootCommittedEvent → WsLog
log_of id e = record {
  topics = id ∷ e.merkle_root ∷ e.block_num ∷ [];
  tx_hash = e.tx_hash;
  removed = false;
}

-- A log of the event that is in the chain: not taken back by a reorganisation, and with its topics.
abbrev pub is_live : WsLog → Bool
is_live l = not l.removed && leb 3 (length l.topics)

abbrev pub topic : ℕ → WsLog → ℕ
topic i l = elim (get_elem? l.topics i) [ none ↦ 0 | some t ↦ t ]

abbrev pub event_of : WsLog → RootCommittedEvent
event_of l = record { merkle_root = topic 1 l; block_num = u64 (topic 2 l); tx_hash = l.tx_hash }

-- Whether the subscription ends at a signal.
abbrev pub is_last : WsSignal → Bool
is_last (log l done) = is_live l && done
is_last _ = true

unfoldable pub before_end : List WsSignal → List WsSignal
before_end [] = []
before_end (s ∷ rest) = let more = before_end rest in if is_last s then [] else s ∷ more

abbrev of_signal : WsSignal → List RootCommittedEvent
of_signal (log l done) = if is_live l then event_of l ∷ [] else []
of_signal _ = []

-- The events of the live logs.
unfoldable pub events_of : List WsSignal → List RootCommittedEvent
events_of [] = []
events_of (s ∷ rest) = of_signal s ++ events_of rest

abbrev as_log : List ℕ → ℕ → Bool → WsLog
as_log ts hash removed = record { topics = ts; tx_hash = hash; removed = removed }

three : (n : ℕ) → leb 3 (suc (suc (suc n))) ≡ true
three n = ground arith

on_topics :
    (ts : List ℕ) (hash : ℕ) (removed done : Bool) (rest : Forwarded)
    → (on_log (as_log ts hash removed) done rest).events ≡ (
        if is_live (as_log ts hash removed) && done
        then []
        else of_signal (log (as_log ts hash removed) done) ++ rest.events)
unfolding on_log parse_root_committed_event
on_topics ts hash true done rest = refl
on_topics [] hash false done rest = refl
on_topics (a ∷ []) hash false done rest = refl
on_topics (a ∷ b ∷ []) hash false done rest = refl
on_topics (a ∷ b ∷ c ∷ more) hash false true rest = rw (three (length more)) refl
on_topics (a ∷ b ∷ c ∷ more) hash false false rest = rw (three (length more)) refl

events_of-step :
    (s : WsSignal) (rest : List WsSignal) (es : List RootCommittedEvent)
    → es ≡ events_of (before_end rest)
    → (if is_last s then [] else of_signal s ++ es) ≡ events_of (before_end (s ∷ rest))
unfolding before_end events_of
events_of-step s rest es h = elim (Bool-cases (is_last s)) [
  | inl y ↦ rw y refl
  | inr n ↦ rw n (ap (λ l. of_signal s ++ l) h)
]

-- The subscription forwards just the events of the live logs that come before it ends, in their order:
-- it passes over the logs that a reorganisation took back and over those with too few topics, and
-- each event has the root of its log, and as block number the lowest 64 bits of the log's number.
pub process_root_committed_logs-events :
    (signals : List WsSignal)
    → (process_root_committed_logs signals).events ≡ events_of (before_end signals)
unfolding process_root_committed_logs before_end events_of
process_root_committed_logs-events [] = refl
process_root_committed_logs-events (context_done ∷ rest) = refl
process_root_committed_logs-events (logs_closed ∷ rest) = refl
process_root_committed_logs-events (subscription_ended b ∷ rest) = refl
process_root_committed_logs-events (log l done ∷ rest) =
    on_topics l.topics l.tx_hash l.removed done (process_root_committed_logs rest)
    ∙ events_of-step (log l done) rest _ (process_root_committed_logs-events rest)

-- A log of the contract's event is read back whole.
pub parse_root_committed_event-log_of :
    (id : ℕ) (e : RootCommittedEvent)
    → e.block_num < u64_mod
    → parse_root_committed_event (log_of id e) ≡ some e
unfolding parse_root_committed_event
parse_root_committed_event-log_of id e h = rw (small e.block_num h) refl
  where
    small : (n : ℕ) → n < u64_mod → u64 n ≡ n
    small n h = omega arith
