-- ===== src/Execution/Group/Sorted.antt =====
-- For groupLogsByBlock: the sorted logs.
use mathlib.Core.List.{Permᴰ}
use mathlib.Core.List.Permᴰ
use ssv_oracle.Prelude.{
  ◌≡◌, refl, inl, inr, Bool-cases, true, false, List, [], ◌∷◌, All, All-map, arith,
}
use ssv_oracle.Execution.Group.{Log, less, insert_log, sort_logs}

-- No later log comes before an earlier one.
abbrev pub InChainOrder : List Log → Type 0
InChainOrder [] = Unit
InChainOrder (x ∷ xs) = All (λ y. less y x ≡ false) xs × InChainOrder xs

less-asymm : (x y : Log) → less y x ≡ true → less x y ≡ false
unfolding less
less-asymm x y h = ground arith

not_less_trans : (x y z : Log) → less y x ≡ false → less z y ≡ false → less z x ≡ false
unfolding less
not_less_trans x y z h k = ground arith

All-insert_log :
    (P : Log → Type 0) (x : Log) (ys : List Log) → P x → All P ys → All P (insert_log x ys)
unfolding insert_log
All-insert_log P x [] p h = (p, tt)
All-insert_log P x (y ∷ ys) p h = elim (Bool-cases (less y x)) [
  | inl e ↦ rw e (h.0, All-insert_log P x ys p h.1)
  | inr e ↦ rw e (p, h)
]

insert_log-InChainOrder :
    (x : Log) (ys : List Log) → InChainOrder ys → InChainOrder (insert_log x ys)
unfolding insert_log
insert_log-InChainOrder x [] h = (tt, tt)
insert_log-InChainOrder x (y ∷ ys) h = elim (Bool-cases (less y x)) [
  | inl e ↦ rw e (
    All-insert_log (λ z. less z y ≡ false) x ys (less-asymm x y e) h.0,
    insert_log-InChainOrder x ys h.1,
  )
  | inr e ↦ rw e (
    (
      e,
      All-map (λ z. less z y ≡ false) (λ z. less z x ≡ false) (λ z. not_less_trans x y z e) ys h.0,
    ),
    h,
  )
]

pub sort_logs-InChainOrder : (l : List Log) → InChainOrder (sort_logs l)
unfolding sort_logs
sort_logs-InChainOrder [] = tt
sort_logs-InChainOrder (x ∷ l) = insert_log-InChainOrder x (sort_logs l) (sort_logs-InChainOrder l)

insert_log-Permᴰ : (x : Log) (ys : List Log) → Permᴰ (insert_log x ys) (x ∷ ys)
unfolding insert_log
insert_log-Permᴰ x [] = Permᴰ.refl (x ∷ [])
insert_log-Permᴰ x (y ∷ ys) = elim (Bool-cases (less y x)) [
  | inl e ↦ rw e (Permᴰ.trans (Permᴰ.cons refl (insert_log-Permᴰ x ys)) (Permᴰ.swap refl refl))
  | inr e ↦ rw e (Permᴰ.refl (x ∷ y ∷ ys))
]

pub sort_logs-Permᴰ : (l : List Log) → Permᴰ (sort_logs l) l
unfolding sort_logs
sort_logs-Permᴰ [] = Permᴰ.nil
sort_logs-Permᴰ (x ∷ l) =
    Permᴰ.trans (insert_log-Permᴰ x (sort_logs l)) (Permᴰ.cons refl (sort_logs-Permᴰ l))
