-- ===== src/Contract/Connect/Releases.antt =====
-- For NewClient and Close: which connections are left open.
use ssv_oracle.Prelude.{
  ℕ, ◌≡◌, refl, ap, sym, subst, ◌∙◌, Bool, true, false, Option, none, some, if◌then◌else◌, arith,
}
use ssv_oracle.Contract.Connect.{
  Net, open_next, close, dial, Manager, new_manager, Config, Client, with_ws, with_manager,
  with_eth, new_client, close_client,
}
use ssv_oracle.Contract.Connect.Managed.{
  IsFresh, SameOpen, AreDistinct, holds, close_all-is_open, dial-true, dial-false, Extends, Managed,
  new_manager-Managed,
}

-- What NewClient leaves: on an error the connections of before; and with a client, closing it leaves
-- those.
abbrev pub IsSettled : Net → Option Client × Net → Type 0
IsSettled n (none, m) = SameOpen n m
IsSettled n (some c, m) = SameOpen n (close_client c m)

module _ (reachable : ℕ → Bool) (n : Net) (fresh : IsFresh n) where
  -- Behind the dial of the RPC.
  abbrev dialed : Net
  dialed = open_next n

  dialed-IsFresh : IsFresh dialed
  dialed-IsFresh id h = ground (arith, fresh id, h)

  close_eth-SameOpen : (m : Net) → SameOpen dialed m → SameOpen n (close n.next m)
  close_eth-SameOpen m h id = ground (arith, h id, fresh id)

  -- A client without the WebSocket client, and one with it.
  close_client-SameOpen :
      (g : Manager) (m : Net)
      → Extends dialed g.mev_clients m
      → SameOpen n
          (close_client (record { eth_client = n.next; ws_client = none; tx_manager = g }) m)
        × SameOpen n (
            close_client
              (record { eth_client = n.next; ws_client = some m.next; tx_manager = g })
              (open_next m))
  unfolding close_client
  close_client-SameOpen g m x = (
    (λ id. ground (arith, close_all-is_open g.mev_clients m id, x.opens id, x.own id, fresh id)),
    (λ id. ground (
      arith,
      close_all-is_open g.mev_clients (open_next m) id,
      x.opens id,
      x.own id,
      x.fresh id,
      x.grows,
      fresh id,
    )),
  )

  with_ws-IsSettled :
      (ws : Option ℕ) (g : Manager) (m : Net)
      → ((url : ℕ) → ws ≡ some url → reachable url ≡ true)
      → Extends dialed g.mev_clients m
      → IsSettled n (with_ws reachable ws n.next g m)
  unfolding with_ws dial
  with_ws-IsSettled none g m up x = (close_client-SameOpen g m x).0
  with_ws-IsSettled (some url) g m up x =
      let e : with_ws reachable (some url) n.next g m ≡ (
        some (record { eth_client = n.next; ws_client = some m.next; tx_manager = g }),
        open_next m,
      ) =
        rw (up url refl, with_ws)
          (ap
            (λ (d : Option ℕ × Net).
              (some (record { eth_client = n.next; ws_client = some m.next; tx_manager = g }), d.1))
            (dial-true m (reachable url) (up url refl))) in
      subst (IsSettled n) (sym e) (close_client-SameOpen g m x).1

  with_manager-IsSettled :
      (cfg : Config) (r : Option Manager × Net)
      → ((url : ℕ) → cfg.ws_rpc_url ≡ some url → reachable url ≡ true)
      → Managed dialed r
      → IsSettled n (with_manager reachable cfg n.next r)
  unfolding with_manager
  with_manager-IsSettled cfg (none, m) up h = close_eth-SameOpen m h
  with_manager-IsSettled cfg (some g, m) up h = with_ws-IsSettled cfg.ws_rpc_url g m up h

  with_eth-IsSettled :
      (cfg : Config)
      → AreDistinct cfg.mev_rpcs
      → ((url : ℕ) → cfg.ws_rpc_url ≡ some url → reachable url ≡ true)
      → (up : Bool) → IsSettled n (with_eth reachable cfg (dial up n))
  unfolding with_eth dial
  with_eth-IsSettled cfg d ws false = λ id. refl
  with_eth-IsSettled cfg d ws true =
      with_manager-IsSettled cfg (new_manager reachable cfg.tx_policy cfg.mev_rpcs dialed) ws
        (new_manager-Managed reachable cfg.tx_policy cfg.mev_rpcs dialed dialed-IsFresh d)

  -- NewClient leaks nothing where the WebSocket node can be reached or is not configured: on an error
  -- the open connections are those of before, and with a client they are after Close. The MEV RPCs
  -- are distinct.
  pub new_client-IsSettled :
      (cfg : Config)
      → AreDistinct cfg.mev_rpcs
      → ((url : ℕ) → cfg.ws_rpc_url ≡ some url → reachable url ≡ true)
      → IsSettled n (new_client reachable cfg n)
  unfolding new_client
  new_client-IsSettled cfg d ws = on cfg.chain_id cfg.has_signer
    where
      on :
          (o : Option ℕ) (b : Bool)
          → IsSettled n (elim o [
            | none ↦ (none, n)
            | some id ↦
                if b then with_eth reachable cfg (dial (reachable cfg.rpc_url) n) else (none, n)
          ])
      on none b = λ id. refl
      on (some i) false = λ id. refl
      on (some i) true = with_eth-IsSettled cfg d ws (reachable cfg.rpc_url)

  -- Where the WebSocket node cannot be reached NewClient fails and leaves open each connection to an
  -- MEV RPC that its manager made. The RPC can be reached, and New has a manager.
  pub new_client_leaks :
      (cfg : Config) (chain url id : ℕ) (g : Manager) (m : Net)
      → cfg.chain_id ≡ some chain
      → cfg.has_signer ≡ true
      → reachable cfg.rpc_url ≡ true
      → AreDistinct cfg.mev_rpcs
      → new_manager reachable cfg.tx_policy cfg.mev_rpcs (open_next n) ≡ (some g, m)
      → cfg.ws_rpc_url ≡ some url
      → reachable url ≡ false
      → holds id g.mev_clients ≡ true
      → ((new_client reachable cfg n).0 ≡ none)
        × ((new_client reachable cfg n).1.is_open id ≡ true)
        × (n.is_open id ≡ false)
  unfolding new_client with_eth with_manager with_ws dial
  new_client_leaks cfg chain url id g m hc hs hr hd hm hw hu hh =
      let x : Extends dialed g.mev_clients m =
        subst (Managed dialed) hm
          (new_manager-Managed reachable cfg.tx_policy cfg.mev_rpcs dialed dialed-IsFresh hd) in
      let e : new_client reachable cfg n ≡ (none, close n.next m) =
        rw (hc, hs, hr, hm, hw, hu, new_client, with_eth, with_manager, with_ws)
          (ap (λ (d : Option ℕ × Net). (none, close n.next d.1))
            (dial-false m (reachable url) hu)) in
      let still : (close n.next m).is_open id ≡ true = ground (arith, x.opens id, x.own id, hh) in
      (
        ap (λ r. r.0) e,
        ap (λ (r : Option Client × Net). r.1.is_open id) e ∙ still,
        ground (arith, fresh id, x.own id, hh),
      )
