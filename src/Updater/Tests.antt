-- ===== src/Updater/Tests.antt =====
-- A pass over a small tree.
use ssv_oracle.Prelude.{
  ==_refl, ℕ, ◌+◌, ◌*◌, ◌%◌, ◌<◌, ◌≡◌, ◌==◌, if◌then◌else◌, refl, true, false, none, some, List, [],
  ◌∷◌, All, text,
}
use ssv_oracle.Storage.Commits.{ClusterBalance, OracleCommit, pending}
use ssv_oracle.Oracle.Balances.{cluster_map, build_tree}
use ssv_oracle.Updater.Commit.{processed, both_passes, process_commit, with_commit, handle_event}
use ssv_oracle.Updater.Run.{RootCommitted, Subscription, failure, run}
use ssv_oracle.Updater.Run.{committed as root_committed}
use ssv_oracle.Updater.Run.Repeats.{NeverRepeats, run-NeverRepeats}
use ssv_oracle.Updater.Commit.Proven.{handle_event-IsProven}
use ssv_oracle.Merkle.Crypto.{Crypto}
use ssv_oracle.Storage.Clusters.{ClusterRow}
use ssv_oracle.Updater.{Pass, balance_of, Answer, confirmed, reverted}
use ssv_oracle.Updater.Passes.{IsProven}
use ssv_oracle.Updater.Commit.Proven.{asked}

unfoldable toy_hash : List ℕ → ℕ
toy_hash [] = 7
toy_hash (x ∷ xs) = (x + 31 * toy_hash xs) % 1000003

abbrev toy : Crypto
toy = record { keccak256 = toy_hash; pack_leaf = λ id b. id ∷ b ∷ [] }

abbrev balances : List (ℕ × ℕ)
balances = (5, 32) ∷ (9, 64) ∷ (2, 96) ∷ []

abbrev row : ClusterRow
row = record {
  cluster_id = 5;
  owner_address = 1;
  operator_ids = 1 ∷ 2 ∷ [];
  validator_count = 1;
  network_fee_index = 0;
  index = 0;
  is_active = true;
  balance = 0;
}

abbrev accepted : Answer
accepted = record {
  context_done = false;
  lookup = λ id. some (if id == 5 then some row else none);
  current_balance = balance_of 31;
  update = confirmed;
}

abbrev answers : List Answer
answers =
    accepted
    ∷ record accepted { update = reverted (text "IncorrectClusterState") }
    ∷ record accepted { lookup = λ id. some none }
    ∷ []

abbrev entry : ℕ → ℕ → ClusterBalance
entry id balance = record { cluster_id = id; effective_balance = balance }

abbrev committed : OracleCommit
committed = record {
  target_epoch = 10;
  merkle_root = (build_tree toy (entry 5 32 ∷ entry 9 64 ∷ [])).root;
  reference_block = 320;
  cluster_balances = entry 5 32 ∷ entry 9 64 ∷ [];
  status = pending;
  tx_hash = none;
}

abbrev committed_pass : Pass
committed_pass = both_passes 320 (build_tree toy (entry 5 32 ∷ entry 9 64 ∷ [])) answers none

handled :
    handle_event toy 300 320 committed.merkle_root (some committed) answers none
    ≡ (processed committed_pass, 320)
unfolding handle_event with_commit process_commit
handled = rw (==_refl committed.merkle_root) refl

handle_event-IsProven_example :
    (300 < 320)
    × (committed.reference_block ≡ 320)
    × All
        (IsProven toy
          (cluster_map committed.cluster_balances [])
          320
          (asked answers none)
          committed.merkle_root)
        committed_pass.submissions
unfolding handle_event with_commit process_commit
handle_event-IsProven_example =
    handle_event-IsProven toy 300 320 committed.merkle_root committed answers none
      {p = committed_pass} {after = 320} handled

abbrev event : RootCommitted
event = record {
  block_num = 320;
  merkle_root = committed.merkle_root;
  commit = some committed;
  answers = answers;
  again = none;
}

-- The same event in two subscriptions, the first of which breaks.
abbrev subscription : Subscription
subscription = record {
  subscribed = true;
  signals = root_committed event ∷ failure ∷ [];
  context_done = false;
}

run-NeverRepeats_example :
    NeverRepeats 300
      (run toy 300 (subscription ∷ subscription ∷ [])).0
      (run toy 300 (subscription ∷ subscription ∷ [])).1
run-NeverRepeats_example = run-NeverRepeats toy 300 (subscription ∷ subscription ∷ [])
