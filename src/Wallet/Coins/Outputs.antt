-- ===== src/Wallet/Coins/Outputs.antt =====
-- src/interface.rs: which outputs of a transaction are coins of the wallet.
use bewallet.Common.{
  ℕ, zero, suc, ◌+◌, ◌%◌, ◌≡◌, ◌↔◌, ◌⊎◌, inl, inr, refl, sym, ap, subst, Bool, true, false, Option,
  none, some, List, [], ◌∷◌, ◌++◌, In, arith, get_elem?, if◌then◌else◌, nat_eq,
}
use bewallet.Word.{u32_mod}
use bewallet.Map.{get, contains}
use bewallet.Elements.{OutPoint, TxOut, TxOutSecrets, Txid, AssetId, outpoint_eq}
use bewallet.Transaction.{Unblinded}
use bewallet.Model.{UnblindedTxo, txo_new}
use bewallet.Wallet.Coins.{is_dust, tx_txos}

pub In-append : {A : Type 0} (u : A) (xs ys : List A) → In u (xs ++ ys) ↔ (In u xs ⊎ In u ys)
In-append u [] ys = (λ h. inr h, λ h. elim h [ inl k ↦ absurd k | inr k ↦ k ])
In-append u (x ∷ xs) ys =
    let (to, from) = In-append u xs ys in
    (
      λ h. elim h [
        | inl e ↦ inl (inl e)
        | inr k ↦ elim (to k) [ inl a ↦ inl (inr a) | inr b ↦ inr b ]
      ],
      λ h. elim h [
        | inl a ↦ elim a [ inl e ↦ inl e | inr k ↦ inr (from (inl k)) ]
        | inr b ↦ inr (from (inr b))
      ],
    )

module _ (policy_asset : AssetId) (spent : List OutPoint) (unblinded : Unblinded)
    (height : Option ℕ) (id : Txid) where
  abbrev outpoint_at : ℕ → OutPoint
  outpoint_at vout = record { txid = id; vout = vout % u32_mod }

  -- `u` is the coin of an output: not spent, unblinded by the wallet, and not dust.
  pub record IsCoin (vout : ℕ) (output : TxOut) (u : UnblindedTxo) : Type 0 where
    pub place :
        u.txo ≡ txo_new (record { txid = id; vout = vout % u32_mod }) output.script_pubkey height
    pub unspent : contains (record { txid = id; vout = vout % u32_mod }) spent ≡ false
    pub known : get (record { txid = id; vout = vout % u32_mod }) unblinded ≡ some u.unblinded
    pub not_dust : is_dust policy_asset u.unblinded ≡ false

  -- The step of `tx_txos` with its tests taken out.
  abbrev emit : Bool → Option TxOutSecrets → ℕ → TxOut → List UnblindedTxo → List UnblindedTxo
  emit c o vout output rest = if c then rest else elim o [
    | none ↦ rest
    | some u ↦
        if is_dust policy_asset u
        then rest
        else record { txo = txo_new (outpoint_at vout) output.script_pubkey height; unblinded = u }
          ∷ rest
  ]

  emitted :
      (c d : Bool) (o : Option TxOutSecrets) (vout : ℕ) (output : TxOut) (rest : List UnblindedTxo)
      (u : UnblindedTxo)
      → contains (outpoint_at vout) spent ≡ c
      → get (outpoint_at vout) unblinded ≡ o
      → In u (emit c o vout output rest)
      → IsCoin vout output u ⊎ In u rest
  emitted true d o vout output rest u e k h = inr h
  emitted false d none vout output rest u e k h = inr h
  emitted false d (some v) vout output rest u e k h = by_dust (is_dust policy_asset v) refl h
    where
      coin : UnblindedTxo
      coin = record { txo = txo_new (outpoint_at vout) output.script_pubkey height; unblinded = v }

      by_dust :
          (q : Bool)
          → is_dust policy_asset v ≡ q
          → In u (if q then rest else coin ∷ rest)
          → IsCoin vout output u ⊎ In u rest
      by_dust true f h = inr h
      by_dust false f (inr h) = inr h
      by_dust false f (inl same) = inl (
          subst (IsCoin vout output) same
            (record { place = refl; unspent = e; known = k; not_dust = f }))

  emitted_coin :
      (vout : ℕ) (output : TxOut) (rest : List UnblindedTxo) (u : UnblindedTxo)
      → IsCoin vout output u
      → In u (
          emit
            (contains (outpoint_at vout) spent)
            (get (outpoint_at vout) unblinded)
            vout
            output
            rest)
  emitted_coin vout output rest u c =
      rw (c.unspent, c.known, c.not_dust)
        (inl (ap (λ t. record { txo = t; unblinded = u.unblinded }) (sym c.place)))

  emitted_rest :
      (c : Bool) (o : Option TxOutSecrets) (vout : ℕ) (output : TxOut) (rest : List UnblindedTxo)
      (u : UnblindedTxo)
      → In u rest
      → In u (emit c o vout output rest)
  emitted_rest true o vout output rest u h = h
  emitted_rest false none vout output rest u h = h
  emitted_rest false (some v) vout output rest u h = by_dust (is_dust policy_asset v)
    where
      by_dust :
          (q : Bool)
          → In u (
              if q
              then rest
              else record {
                txo = txo_new (outpoint_at vout) output.script_pubkey height;
                unblinded = v;
              }
                ∷ rest)
      by_dust true = h
      by_dust false = inr h

  -- The coins of the outputs numbered from `vout`.
  pub record CoinOf (vout : ℕ) (outputs : List TxOut) (u : UnblindedTxo) : Type 0 where
    pub index : ℕ
    pub output : TxOut
    pub at : get_elem? outputs index ≡ some output
    pub is_coin : IsCoin (vout + index) output u

  pub tx_txos-CoinOf :
      (vout : ℕ) (outputs : List TxOut) (u : UnblindedTxo)
      → In u (tx_txos policy_asset spent unblinded height id vout outputs) ↔ CoinOf vout outputs u
  unfolding tx_txos
  tx_txos-CoinOf vout [] u = (λ h. absurd h, λ c. absurd (nothing c.index c.at))
    where
      nothing : (i : ℕ) {o : TxOut} → get_elem? [] i ≡ some o → ⊥
      nothing i e = cc
  tx_txos-CoinOf vout (o ∷ outputs) u =
      (to (tx_txos-CoinOf (vout + 1) outputs u).0, from (tx_txos-CoinOf (vout + 1) outputs u).1)
    where
      rest : List UnblindedTxo
      rest = tx_txos policy_asset spent unblinded height id (vout + 1) outputs

      to :
          (In u rest → CoinOf (vout + 1) outputs u)
          → In u (tx_txos policy_asset spent unblinded height id vout (o ∷ outputs))
          → CoinOf vout (o ∷ outputs) u
      to ih h =
          elim (emitted (contains (outpoint_at vout) spent) true (get (outpoint_at vout) unblinded)
            vout o rest u refl refl h) [
              | inl c ↦ record {
                index = 0;
                output = o;
                at = refl;
                is_coin = subst (λ v. IsCoin v o u) (omega arith) c;
              }
              | inr k ↦
                  let c = ih k in
                  record {
                    index = suc c.index;
                    output = c.output;
                    at = c.at;
                    is_coin = subst (λ v. IsCoin v c.output u) (omega arith) c.is_coin;
                  }
            ]

      from_index :
          (i : ℕ) (out : TxOut)
          → (CoinOf (vout + 1) outputs u → In u rest)
          → get_elem? (o ∷ outputs) i ≡ some out
          → IsCoin (vout + i) out u
          → In u (tx_txos policy_asset spent unblinded height id vout (o ∷ outputs))
      from_index zero out ih e c =
          let same : o ≡ out = cc in
          emitted_coin vout o rest u (
            subst (λ p. IsCoin p o u) (omega arith)
              (subst (λ q. IsCoin (vout + 0) q u) (sym same) c))
      from_index (suc i) out ih e c =
          emitted_rest (contains (outpoint_at vout) spent) (get (outpoint_at vout) unblinded) vout o
            rest u
            (ih (record {
              index = i;
              output = out;
              at = e;
              is_coin = subst (λ v. IsCoin v out u) (omega arith) c;
            }))

      from :
          (CoinOf (vout + 1) outputs u → In u rest)
          → CoinOf vout (o ∷ outputs) u
          → In u (tx_txos policy_asset spent unblinded height id vout (o ∷ outputs))
      from ih c = from_index c.index c.output ih c.at c.is_coin
