-- ===== src/Contract/Events.antt =====
-- contract/events.go: the subscription to RootCommitted events. What the select receives is a list of
-- signals; the list ends where the goroutine still waits.
pub mod Forwards
use ssv_oracle.Prelude.{
  ℕ, ◌%◌, Bool, true, false, not, Option, none, some, List, [], ◌∷◌, ltb, if◌then◌else◌, length,
  get_elem?, u64,
}

-- types.Log, as far as it is read; a topic is the number that its 32 bytes spell.
pub record WsLog : Type 0 where
  pub topics : List ℕ
  pub tx_hash : ℕ
  pub removed : Bool

pub record RootCommittedEvent : Type 0 where
  pub merkle_root : ℕ
  pub block_num : ℕ
  pub tx_hash : ℕ

-- parseRootCommittedEvent; `none` is the error of too few topics.
unfoldable pub parse_root_committed_event : WsLog → Option RootCommittedEvent
parse_root_committed_event log = elim log.topics [
  | id ∷ root ∷ block ∷ more ↦
      some (record { merkle_root = root; block_num = u64 block; tx_hash = log.tx_hash })
  | _ ↦ none
]

-- What the select receives: the end of the context; the subscription's error, if it is not nil; a
-- closed channel; or a log, with whether the context ends while the event of the log waits.
pub data WsSignal : Type 0 where
  context_done logs_closed : WsSignal
  subscription_ended : Bool → WsSignal
  log : WsLog → Bool → WsSignal

-- What goes out over the two channels, and whether they are closed.
pub record Forwarded : Type 0 where
  pub events : List RootCommittedEvent
  pub failure : Bool
  pub closed : Bool

abbrev pub closed_with : Bool → Forwarded
closed_with failure = record { events = []; failure = failure; closed = true }

abbrev pub with_event : RootCommittedEvent → Forwarded → Forwarded
with_event e f = record f { events = e ∷ f.events }

-- The case of a log: `rest` is the loop behind it.
unfoldable pub on_log : WsLog → Bool → Forwarded → Forwarded
unfolding parse_root_committed_event
on_log l done rest = if l.removed then rest else elim (parse_root_committed_event l) [
  | none ↦ rest
  | some e ↦ if done then closed_with false else with_event e rest
]

-- processRootCommittedLogs
unfoldable pub process_root_committed_logs : List WsSignal → Forwarded
unfolding on_log
process_root_committed_logs [] = record { events = []; failure = false; closed = false }
process_root_committed_logs (context_done ∷ rest) = closed_with false
process_root_committed_logs (logs_closed ∷ rest) = closed_with false
process_root_committed_logs (subscription_ended err ∷ rest) = closed_with err
process_root_committed_logs (log l done ∷ rest) = on_log l done (process_root_committed_logs rest)

-- SubscribeRootCommitted: `none` is the error of a client without WebSocket, of an ABI without the event,
-- or of the node.
unfoldable pub subscribe_root_committed : Bool → Bool → Bool → List WsSignal → Option Forwarded
unfolding process_root_committed_logs
subscribe_root_committed has_ws in_abi subscribes signals =
    if not has_ws
    then none
    else if not in_abi
    then none
    else if subscribes
    then some (process_root_committed_logs signals)
    else none
