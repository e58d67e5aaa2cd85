-- ===== src/Contract/Connect.antt =====
-- contract/client.go: NewClient and Close, with New and Close of txmanager/manager.go: the connections
-- that they open and close. A URL is the number that its bytes spell.
pub mod Managed
pub mod Releases
use ssv_oracle.Prelude.{
  ℕ, ◌+◌, Bool, true, false, Option, none, some, List, [], ◌∷◌, ◌==◌, if◌then◌else◌, insert,
}
use ssv_oracle.Tx.Policy.{TxPolicy, apply_defaults, validate}

-- The connections that are open, and the number of the next one.
pub record Net : Type 0 where
  pub next : ℕ
  pub is_open : ℕ → Bool

abbrev pub open_next : Net → Net
open_next n = record {
  next = n.next + 1;
  is_open = λ id. if id == n.next then true else n.is_open id;
}

abbrev pub close : ℕ → Net → Net
close id n = record n { is_open = λ j. if j == id then false else n.is_open j }

-- ethclient.Dial, on whether the URL can be reached.
unfoldable pub dial : Bool → Net → Option ℕ × Net
dial reachable n = if reachable then (some n.next, open_next n) else (none, n)

-- The map mevClients, and the loops that close it.
abbrev pub Clients : Type 0
Clients = List (ℕ × ℕ)

unfoldable pub close_all : Clients → Net → Net
close_all [] n = n
close_all ((url, id) ∷ rest) n = close_all rest (close id n)

-- The loop of New over the MEV RPCs.
unfoldable pub dial_all : (ℕ → Bool) → List ℕ → Clients → Net → Option Clients × Net
unfolding dial close_all
dial_all reachable [] clients n = (some clients, n)
dial_all reachable (url ∷ rest) clients n =
    let dialed = dial (reachable url) n in
    elim dialed.0 [
      | none ↦ (none, close_all clients dialed.1)
      | some id ↦ dial_all reachable rest (insert url id clients) dialed.1
    ]

-- What New keeps.
pub record Manager : Type 0 where
  pub policy : TxPolicy
  pub mev_clients : Clients

manager_of : TxPolicy → Option Clients × Net → Option Manager × Net
manager_of p (none, n) = (none, n)
manager_of p (some clients, n) = (some (record { policy = p; mev_clients = clients }), n)

valid_manager : (ℕ → Bool) → TxPolicy → List ℕ → Net → Option Manager × Net
unfolding dial_all manager_of validate
valid_manager reachable p mev_rpcs n = elim (validate p) [
  | some e ↦ (none, n)
  | none ↦ manager_of p (dial_all reachable mev_rpcs [] n)
]

-- New
unfoldable pub new_manager : (ℕ → Bool) → Option TxPolicy → List ℕ → Net → Option Manager × Net
unfolding valid_manager apply_defaults
new_manager reachable none mev_rpcs n = (none, n)
new_manager reachable (some p) mev_rpcs n = valid_manager reachable (apply_defaults p) mev_rpcs n

pub record Config : Type 0 where
  pub rpc_url : ℕ
  pub ws_rpc_url : Option ℕ
  pub chain_id : Option ℕ
  pub has_signer : Bool
  pub tx_policy : Option TxPolicy
  pub mev_rpcs : List ℕ

pub record Client : Type 0 where
  pub eth_client : ℕ
  pub ws_client : Option ℕ
  pub tx_manager : Manager

-- The WebSocket client of NewClient.
with_ws : (ℕ → Bool) → Option ℕ → ℕ → Manager → Net → Option Client × Net
unfolding dial
with_ws reachable none eth m n =
    (some (record { eth_client = eth; ws_client = none; tx_manager = m }), n)
with_ws reachable (some url) eth m n =
    let dialed = dial (reachable url) n in
    elim dialed.0 [
      | none ↦ (none, close eth dialed.1)
      | some ws ↦
          (some (record { eth_client = eth; ws_client = some ws; tx_manager = m }), dialed.1)
    ]

with_manager : (ℕ → Bool) → Config → ℕ → Option Manager × Net → Option Client × Net
unfolding with_ws
with_manager reachable cfg eth (none, n) = (none, close eth n)
with_manager reachable cfg eth (some m, n) = with_ws reachable cfg.ws_rpc_url eth m n

with_eth : (ℕ → Bool) → Config → Option ℕ × Net → Option Client × Net
unfolding with_manager new_manager
with_eth reachable cfg (none, n) = (none, n)
with_eth reachable cfg (some eth, n) =
    with_manager reachable cfg eth (new_manager reachable cfg.tx_policy cfg.mev_rpcs n)

-- NewClient, on which URLs can be reached.
unfoldable pub new_client : (ℕ → Bool) → Config → Net → Option Client × Net
unfolding with_eth dial
new_client reachable cfg n = elim cfg.chain_id [
  | none ↦ (none, n)
  | some id ↦
      if cfg.has_signer then with_eth reachable cfg (dial (reachable cfg.rpc_url) n) else (none, n)
]

abbrev close_ws : Option ℕ → Net → Net
close_ws none n = n
close_ws (some id) n = close id n

-- Close
unfoldable pub close_client : Client → Net → Net
unfolding close_all
close_client c n = close_ws c.ws_client (close c.eth_client (close_all c.tx_manager.mev_clients n))
