-- ===== src/Transaction/Changes/Loop.antt =====
-- The loop of `changes`: what goes back of each asset, and the outputs that it has not met.
use bewallet.Common.{
  is_some, ℕ, ◌+◌, ◌-◌, ◌<◌, ◌≤◌, ◌≡◌, refl, Bool, true, false, none, List, [], ◌∷◌, arith, nat_eq,
  nat_beq, if◌then◌else◌, ltb, inl, inr, Bool-cases, nat_beq_iff, ap, subst, ◌⊎◌,
}
use bewallet.Outcome.{ok}
use bewallet.Word.{Build, sub_u64, sub_u64_fits, u64_mod}
use bewallet.Map.{Amounts, Distinct, get, insert, remove, amount, or_zero}
use bewallet.Map.Laws.{get-insert, get-remove, insert-Distinct}
use bewallet.Transaction.{dust_value}
use bewallet.Transaction.Changes.{add_change, change_loop}

-- What goes back of an asset of which `s` is left: of the policy asset the rest above the fee, if
-- it is more than dust, and of any other asset all.
unfoldable pub change : ℕ → ℕ → ℕ → ℕ → ℕ
change policy_asset fee a s =
    if nat_beq policy_asset a then (if ltb dust_value (s - fee) then s - fee else 0) else s

abbrev pub due : ℕ → ℕ → ℕ → ℕ
due policy_asset fee a = if nat_beq policy_asset a then fee else 0

-- `result'` is `result` with the amount `v` for a new asset; no entry means 0.
record Adds (asset v : ℕ) (result result' : Amounts) : Type 0 where
  distinct : Distinct result'
  amounts : (a : ℕ) → amount a result' ≡ (if nat_beq asset a then v else amount a result)
  others : (a : ℕ) → nat_beq asset a ≡ false → get a result' ≡ get a result

insert_if-Adds :
    (q : Bool) (asset v : ℕ) (result : Amounts)
    → Distinct result
    → get asset result ≡ none
    → Adds asset (if q then v else 0) result (if q then insert asset v result else result)
insert_if-Adds true asset v result d fresh = record {
  distinct = insert-Distinct asset v result d;
  amounts = λ a. ground (arith, get-insert asset a v result);
  others = λ a h. ground (arith, get-insert asset a v result);
}
insert_if-Adds false asset v result d fresh = record {
  distinct = d;
  amounts = λ a. absent a (Bool-cases (nat_beq asset a));
  others = λ a h. refl;
}
  where
    absent :
        (a : ℕ)
        → (nat_beq asset a ≡ true) ⊎ (nat_beq asset a ≡ false)
        → amount a result ≡ (if nat_beq asset a then 0 else amount a result)
    absent a (inl same) =
        let e : asset ≡ a = (nat_beq_iff asset a).0 same in rw same (rw e at (ap or_zero fresh))
    absent a (inr other) = rw other refl

module _ (policy_asset fee : ℕ) where
  -- The outputs and the fee of each asset that the inputs hold are covered.
  abbrev pub Covered : List (ℕ × ℕ) → Amounts → Type 0
  Covered inputs outputs =
      (a : ℕ)
      → is_some (get a inputs) ≡ true
      → (amount a outputs + due policy_asset fee a ≤ amount a inputs) × (amount a inputs < u64_mod)

  -- The state of the loop when it has gone over `inputs`.
  pub record Loops (inputs : List (ℕ × ℕ)) (outputs result outputs' result' : Amounts)
      : Type 0 where
    pub distinct : Distinct result'
    pub rest : (a : ℕ) → get a outputs' ≡ (if is_some (get a inputs) then none else get a outputs)
    pub amounts :
        (a : ℕ)
        → amount a result' ≡ (
            if is_some (get a inputs)
            then change policy_asset fee a (amount a inputs - amount a outputs)
            else amount a result)

module _ (b : Build) (policy_asset fee : ℕ) where
  add_change-Adds :
      (asset s : ℕ) (result : Amounts)
      → Distinct result
      → get asset result ≡ none
      → due policy_asset fee asset ≤ s
      → s < u64_mod
      → (result' : Amounts) × (add_change b policy_asset fee asset s result ≡ ok result')
        × Adds asset (change policy_asset fee asset s) result result'
  unfolding add_change change
  add_change-Adds asset s result d fresh h k = elim (Bool-cases (nat_beq asset policy_asset)) [
    | inl same ↦
        let flip : nat_beq policy_asset asset ≡ true = ground arith in
        let fits : sub_u64 b s fee ≡ ok (s - fee) = sub_u64_fits b s fee (ground arith) k in
        (
          if ltb dust_value (s - fee) then insert asset (s - fee) result else result,
          rw (same, fits),
          rw flip (insert_if-Adds (ltb dust_value (s - fee)) asset (s - fee) result d fresh),
        )
    | inr other ↦
        let flip : nat_beq policy_asset asset ≡ false = ground arith in
        (
          if ltb 0 s then insert asset s result else result,
          rw other,
          rw flip (
              subst (λ v. Adds asset v result (if ltb 0 s then insert asset s result else result))
                (ground arith) (insert_if-Adds (ltb 0 s) asset s result d fresh)),
        )
  ]

  pub change_loop-Loops :
      (inputs : List (ℕ × ℕ)) (outputs result : Amounts)
      → Distinct inputs
      → Distinct result
      → Covered policy_asset fee inputs outputs
      → ((a : ℕ) → is_some (get a inputs) ≡ true → get a result ≡ none)
      → (outputs' : Amounts) × (result' : Amounts) × (change_loop b policy_asset fee inputs outputs
            result
          ≡ ok (outputs', result'))
        × Loops policy_asset fee inputs outputs result outputs' result'
  unfolding change_loop get
  change_loop-Loops [] outputs result d dr c fresh =
      (outputs, result, refl, record { distinct = dr; rest = λ a. refl; amounts = λ a. refl })
  change_loop-Loops ((asset, value) ∷ inputs) outputs result d dr c fresh =
      let left = value - amount asset outputs in
      let here : (amount asset outputs + due policy_asset fee asset ≤ value) × (value < u64_mod) =
        ground (arith, c asset) in
      let sub : sub_u64 b value (amount asset outputs) ≡ ok left =
        sub_u64_fits b value (amount asset outputs) (omega arith) here.1 in
      let (result₁, add, adds) =
        add_change-Adds asset left result dr (ground (arith, fresh asset)) (omega arith)
          (omega arith) in
      let (outputs', result', run, l) =
        change_loop-Loops inputs (remove asset outputs) result₁ d.1 adds.distinct
          (λ a k. ground (arith, c a, get-remove asset a outputs))
          (λ a k. ground (arith, fresh a, adds.others a)) in
      (
        outputs',
        result',
        rw (sub, add) run,
        record {
          distinct = l.distinct;
          rest = λ a. ground (arith, l.rest a, get-remove asset a outputs);
          amounts = λ a. ground (arith, l.amounts a, adds.amounts a, get-remove asset a outputs);
        },
      )
