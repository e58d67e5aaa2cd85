-- ===== src/Contract/Connect/Managed.antt =====
-- For New of the transaction manager: the connections of its MEV clients.
use ssv_oracle.Prelude.{
  ℕ, ◌≤◌, ◌≡◌, refl, ap, sym, subst, ◌∙◌, Bool, true, false, Option, none, some, List, [], ◌∷◌,
  ◌==◌, if◌then◌else◌, lookup, insert, lookup-insert, All, Bool-cases, Option-cases, inl, inr,
  arith,
}
use ssv_oracle.Tx.Policy.{TxPolicy, apply_defaults, validate}
use ssv_oracle.Contract.Connect.{
  Net, open_next, close, dial, Clients, close_all, dial_all, Manager, manager_of, valid_manager,
  new_manager,
}

-- The numbers from the next one on are free.
abbrev pub IsFresh : Net → Type 0
IsFresh n = (id : ℕ) → n.next ≤ id → n.is_open id ≡ false

abbrev pub SameOpen : Net → Net → Type 0
SameOpen n m = (id : ℕ) → m.is_open id ≡ n.is_open id

abbrev pub AreDistinct : List ℕ → Type 0
AreDistinct [] = Unit
AreDistinct (u ∷ rest) = All (λ v. (u == v) ≡ false) rest × AreDistinct rest

-- Whether a connection is one of the clients'.
unfoldable pub holds : ℕ → Clients → Bool
holds id [] = false
holds id ((url, i) ∷ rest) = if i == id then true else holds id rest

pub close_all-is_open :
    (cs : Clients) (n : Net) (id : ℕ)
    → (close_all cs n).is_open id ≡ (if holds id cs then false else n.is_open id)
unfolding close_all holds
close_all-is_open [] n id = refl
close_all-is_open ((url, i) ∷ rest) n id = ground (arith, close_all-is_open rest (close i n) id)

holds-insert :
    (u i id : ℕ) (cs : Clients)
    → lookup u cs ≡ none
    → holds id (insert u i cs) ≡ (if i == id then true else holds id cs)
unfolding holds insert lookup
holds-insert u i id [] h = refl
holds-insert u i id ((v, j) ∷ rest) h = elim (Bool-cases (v == u)) [
  | inl y ↦ absurd (ground (arith, y, h))
  | inr n ↦ rw n (ground (arith, n, holds-insert u i id rest (rw n at h)))
]

pub dial-true : (n : Net) (b : Bool) → b ≡ true → dial b n ≡ (some n.next, open_next n)
unfolding dial
dial-true n b h = rw h refl

pub dial-false : (n : Net) (b : Bool) → b ≡ false → dial b n ≡ (none, n)
unfolding dial
dial-false n b h = rw h refl

-- What is open in `n` is what was open in `base`, and the clients' connections, which are new.
pub record Extends (base : Net) (cs : Clients) (n : Net) : Type 0 where
  pub grows : base.next ≤ n.next
  pub fresh : IsFresh n
  pub opens : (id : ℕ) → n.is_open id ≡ (if holds id cs then true else base.is_open id)
  pub own : (id : ℕ) → holds id cs ≡ true → base.next ≤ id

Extends-start : (n : Net) → IsFresh n → Extends n [] n
unfolding holds
Extends-start n f = record {
  grows = omega arith;
  fresh = f;
  opens = λ id. refl;
  own = λ id h. absurd (cc);
}

Extends-insert :
    (base n : Net) (cs : Clients) (u : ℕ)
    → Extends base cs n
    → lookup u cs ≡ none
    → Extends base (insert u n.next cs) (open_next n)
Extends-insert base n cs u x h = record {
  grows = omega (arith, x.grows);
  fresh = λ id le. ground (arith, x.fresh id, le);
  opens = λ id. rw (holds-insert u n.next id cs h) (on id);
  own = λ id y. ground (arith, holds-insert u n.next id cs h, y, x.own id, x.grows);
}
  where
    on :
        (id : ℕ)
        → (open_next n).is_open id
          ≡ (if (if n.next == id then true else holds id cs) then true else base.is_open id)
    on id = ground (arith, x.opens id)

-- Closing the clients' connections leaves what was open before them.
close_all-SameOpen :
    (base n : Net) (cs : Clients)
    → IsFresh base
    → Extends base cs n
    → SameOpen base (close_all cs n)
close_all-SameOpen base n cs f x id =
    close_all-is_open cs n id ∙ ground (arith, x.opens id, x.own id, f id)

Apart : Clients → List ℕ → Type 0
Apart cs = All (λ v. lookup v cs ≡ none)

Apart-none : (urls : List ℕ) → Apart [] urls
unfolding Apart lookup
Apart-none [] = tt
Apart-none (u ∷ rest) = (refl, Apart-none rest)

Apart-insert :
    (u i : ℕ) (cs : Clients) (rest : List ℕ)
    → Apart cs rest
    → All (λ v. (u == v) ≡ false) rest
    → Apart (insert u i cs) rest
unfolding Apart
Apart-insert u i cs [] a d = tt
Apart-insert u i cs (v ∷ rest) a d =
    (rw (lookup-insert u v i cs) (rw (d.0) a.0), Apart-insert u i cs rest a.1 d.1)

abbrev Dialed : Net → Option Clients × Net → Type 0
Dialed base (none, m) = SameOpen base m
Dialed base (some cs, m) = Extends base cs m

dial_all-Dialed :
    (reachable : ℕ → Bool) (urls : List ℕ) (base n : Net) (cs : Clients)
    → IsFresh base
    → Extends base cs n
    → AreDistinct urls
    → Apart cs urls
    → Dialed base (dial_all reachable urls cs n)
unfolding dial_all dial Apart
dial_all-Dialed reachable [] base n cs f x d a = x
dial_all-Dialed reachable (u ∷ rest) base n cs f x d a = elim (Bool-cases (reachable u)) [
  | inr no' ↦
      let e : dial_all reachable (u ∷ rest) cs n ≡ (none, close_all cs n) =
        rw (no', dial_all)
          (ap (λ (d : Option ℕ × Net). (none, close_all cs d.1))
            (dial-false n (reachable u) no')) in
      subst (Dialed base) (sym e) (close_all-SameOpen base n cs f x)
  | inl yes' ↦
      let e : dial_all reachable (u ∷ rest) cs n
          ≡ dial_all reachable rest (insert u n.next cs) (open_next n) =
        rw (yes', dial_all)
          (ap (λ (d : Option ℕ × Net). dial_all reachable rest (insert u n.next cs) d.1)
            (dial-true n (reachable u) yes')) in
      subst (Dialed base) (sym e) (
        dial_all-Dialed reachable rest base (open_next n) (insert u n.next cs) f
          (Extends-insert base n cs u x a.0) d.1 (Apart-insert u n.next cs rest a.1 d.0))
]

-- What New leaves: on an error the connections of before, and otherwise also those of its clients.
abbrev pub Managed : Net → Option Manager × Net → Type 0
Managed base (none, m) = SameOpen base m
Managed base (some g, m) = Extends base g.mev_clients m

manager_of-Managed :
    (p : TxPolicy) (base : Net) (r : Option Clients × Net)
    → Dialed base r
    → Managed base (manager_of p r)
unfolding manager_of
manager_of-Managed p base (none, m) d = d
manager_of-Managed p base (some cs, m) d = d

valid_manager-Managed :
    (reachable : ℕ → Bool) (p : TxPolicy) (urls : List ℕ) (n : Net)
    → IsFresh n
    → AreDistinct urls
    → Managed n (valid_manager reachable p urls n)
unfolding valid_manager
valid_manager-Managed reachable p urls n f d = elim (Option-cases (validate p)) [
  | inl ok ↦
      let e : valid_manager reachable p urls n ≡ manager_of p (dial_all reachable urls [] n) =
        rw (ok, valid_manager) in
      subst (Managed n) (sym e) (
        manager_of-Managed p n (dial_all reachable urls [] n)
          (dial_all-Dialed reachable urls n n [] f (Extends-start n f) d (Apart-none urls)))
  | inr (x, bad) ↦
      let e : valid_manager reachable p urls n ≡ (none, n) = rw (bad, valid_manager) in
      subst (Managed n) (sym e) (λ id. refl)
]

pub new_manager-Managed :
    (reachable : ℕ → Bool) (p : Option TxPolicy) (urls : List ℕ) (n : Net)
    → IsFresh n
    → AreDistinct urls
    → Managed n (new_manager reachable p urls n)
unfolding new_manager
new_manager-Managed reachable none urls n f d = λ id. refl
new_manager-Managed reachable (some p) urls n f d =
    valid_manager-Managed reachable (apply_defaults p) urls n f d
