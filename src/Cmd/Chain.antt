-- ===== src/Cmd/Chain.antt =====
-- For validateChainID: the chain of a database.
use ssv_oracle.Prelude.{
  ℕ, ◌≡◌, ◌⊎◌, refl, ap, sym, ◌∙◌, Bool, true, false, Option, none, some, List, [], ◌∷◌, ◌==◌,
  if◌then◌else◌, u64, All, inl, inr, arith,
}
use ssv_oracle.Storage.{Db, get_chain_id, set_chain_id}
use ssv_oracle.Cmd.{ChainCheck, check_stored, validate_chain_id}

-- A check that succeeds is for the node's chain and leaves a database with its ID; a chain ID that was
-- there before stays, and so does the rest of the database; a check that fails changes nothing.
abbrev pub IsChecked : ChainCheck → Db → Option ℕ × Db → Type 0
IsChecked k db (none, after) = after ≡ db
IsChecked k db (some chain, after) =
    (k.node_chain_id ≡ some chain)
    × (get_chain_id after ≡ some (u64 chain))
    × ((get_chain_id db ≡ none) ⊎ (get_chain_id db ≡ some (u64 chain)))
    × (after ≡ set_chain_id db (some (u64 chain)))

if-IsChecked :
    (k : ChainCheck) (db : Db) (b : Bool) (r q : Option ℕ × Db)
    → (b ≡ true → IsChecked k db r)
    → IsChecked k db q
    → IsChecked k db (if b then r else q)
if-IsChecked k db true r q x y = x refl
if-IsChecked k db false r q x y = y

check_stored-IsChecked :
    (k : ChainCheck) (chain : ℕ) (o : Option ℕ) (db : Db)
    → k.node_chain_id ≡ some chain
    → get_chain_id db ≡ o
    → IsChecked k db (check_stored k chain o db)
unfolding check_stored get_chain_id set_chain_id
check_stored-IsChecked k chain none db h e =
    if-IsChecked k db k.writes _ (none, db) (λ y. (h, refl, inl e, refl)) refl
check_stored-IsChecked k chain (some stored) db h e =
    if-IsChecked k db (stored == u64 chain) (some chain, db) (none, db)
      (λ y.
        let same : db.chain_id ≡ some (u64 chain) = e ∙ ap some (ground (arith, y)) in
        (h, same, inr same, ap (λ o. record db { chain_id = o }) same))
      refl

pub validate_chain_id-IsChecked :
    (k : ChainCheck) (db : Db) → IsChecked k db (validate_chain_id k db)
unfolding validate_chain_id
validate_chain_id-IsChecked k db = on k.node_chain_id refl
  where
    on :
        (o : Option ℕ)
        → k.node_chain_id ≡ o
        → IsChecked k db (elim o [
          | none ↦ (none, db)
          | some chain ↦ if k.reads then check_stored k chain (get_chain_id db) db else (none, db)
        ])
    on none h = refl
    on (some chain) h =
        if-IsChecked k db k.reads _ (none, db)
          (λ y. check_stored-IsChecked k chain (get_chain_id db) db h refl) refl

-- The checks of several starts on one database, without --fresh.
unfoldable pub checks : List ChainCheck → Db → List (Option ℕ) × Db
checks [] db = ([], db)
checks (k ∷ rest) db =
    let (chain, after) = validate_chain_id k db in
    let (chains, last) = checks rest after in (chain ∷ chains, last)

abbrev pub IsOf : Db → Option ℕ → Type 0
IsOf db none = Unit
IsOf db (some chain) = get_chain_id db ≡ some (u64 chain)

IsChecked-stays :
    (k : ChainCheck) (db : Db) (id : ℕ) (r : Option ℕ × Db)
    → IsChecked k db r
    → get_chain_id db ≡ some id
    → get_chain_id r.1 ≡ some id
IsChecked-stays k db id (none, after) h e = ap get_chain_id h ∙ e
IsChecked-stays k db id (some chain, after) (n, stored, inl free, same) e =
    absurd (ground (arith, free, e))
IsChecked-stays k db id (some chain, after) (n, stored, inr kept, same) e = stored ∙ sym kept ∙ e

checks-stays :
    (ks : List ChainCheck) (db : Db) (id : ℕ)
    → get_chain_id db ≡ some id
    → get_chain_id (checks ks db).1 ≡ some id
unfolding checks
checks-stays [] db id e = e
checks-stays (k ∷ rest) db id e =
    checks-stays rest (validate_chain_id k db).1 id
      (IsChecked-stays k db id (validate_chain_id k db) (validate_chain_id-IsChecked k db) e)

-- Over any starts on one database without --fresh, whatever fails in them, the chain IDs of all checks
-- that succeed are equal as uint64: each is the one that the database has in the end.
pub checks-IsOf : (ks : List ChainCheck) (db : Db) → All (IsOf (checks ks db).1) (checks ks db).0
unfolding checks
checks-IsOf [] db = tt
checks-IsOf (k ∷ rest) db = (
  on (validate_chain_id k db) (validate_chain_id-IsChecked k db),
  checks-IsOf rest (validate_chain_id k db).1,
)
  where
    on : (r : Option ℕ × Db) → IsChecked k db r → IsOf (checks rest r.1).1 r.0
    on (none, after) h = tt
    on (some chain, after) h = checks-stays rest after (u64 chain) h.1
