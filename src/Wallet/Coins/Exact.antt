-- ===== src/Wallet/Coins/Exact.antt =====
-- src/interface.rs: the coins and the balance of the wallet.
use bewallet.Common.{
  ℕ, ◌≡◌, ◌↔◌, inl, inr, refl, sym, subst, ◌∙◌, Bool, true, Option, some, List, [], ◌∷◌, ◌++◌, In,
  map, arith, Option-cases, if◌then◌else◌, nat_eq, is_some, ◌==◌, leb,
}
use bewallet.Common.Sort.{sort_by}
use bewallet.Common.Sort.Laws.{In-sort_by}
use bewallet.Outcome.{ok, traverse}
use bewallet.Map.{get, insert, Distinct, Amounts, amount}
use bewallet.Map.Laws.{In-get, get-In}
use bewallet.Amounts.{total, has, InRange}
use bewallet.Amounts.Laws.{accumulate-Holds}
use bewallet.Elements.{Txid, Transaction, AssetId, outpoint_eq}
use bewallet.Model.{UnblindedTxo}
use bewallet.Store.{StoreMeta, spent}
use bewallet.Wallet.Context.{WalletCtx, Orders}
use bewallet.Wallet.Coins.{tx_txos, txos, utxos, balance}
use bewallet.Wallet.Coins.Outputs.{In-append, CoinOf, tx_txos-CoinOf}

module _ (w : WalletCtx) (s : StoreMeta) where
  -- A coin of a transaction of the list.
  pub record LiveCoin (u : UnblindedTxo) : Type 0 where
    pub tx_id : Txid
    pub height : Option ℕ
    pub tx : Transaction
    pub live : get tx_id s.cache.heights ≡ some height
    pub stored : get tx_id s.cache.all_txs ≡ some tx
    pub coin_of :
        CoinOf w.config.policy_asset
          (spent s)
          s.cache.unblinded
          height
          (w.env.txid tx)
          0
          tx.output
          u

  record Listed (heights : List (Txid × Option ℕ)) (u : UnblindedTxo) : Type 0 where
    tx_id : Txid
    height : Option ℕ
    tx : Transaction
    listed : In (tx_id, height) heights
    stored : get tx_id s.cache.all_txs ≡ some tx
    coin_of :
        CoinOf w.config.policy_asset
          (spent s)
          s.cache.unblinded
          height
          (w.env.txid tx)
          0
          tx.output
          u

  txos-Listed :
      (heights : List (Txid × Option ℕ))
      → ((id : Txid) (h : Option ℕ) → In (id, h) heights → is_some (get id s.cache.all_txs) ≡ true)
      → (r : List UnblindedTxo) × (txos w s heights ≡ ok r)
        × ((u : UnblindedTxo) → In u r ↔ Listed heights u)
  unfolding txos
  txos-Listed [] known = ([], refl, λ u. (λ h. absurd h, λ c. absurd c.listed))
  txos-Listed ((id, h) ∷ heights) known = elim (Option-cases (get id s.cache.all_txs)) [
    | inl missing ↦ absurd (ground (arith, known id h (inl refl), missing))
    | inr (tx, found) ↦
        let (r, run, same) = txos-Listed heights (λ j k l. known j k (inr l)) in
        let here =
          tx_txos w.config.policy_asset (spent s) s.cache.unblinded h (w.env.txid tx) 0 tx.output in
        (
          here ++ r,
          rw (found, run) refl,
          λ u. (
            to tx found r here u (same u).0 (tx_txos-CoinOf _ _ _ _ _ _ _ u).0,
            λ c.
                from tx found r here u (same u).1 (tx_txos-CoinOf _ _ _ _ _ _ _ u).1 c.tx_id
                  c.height c.tx c.listed c.stored c.coin_of,
          ),
        )
  ]
    where
      to :
          (tx : Transaction)
          → get id s.cache.all_txs ≡ some tx
          → (r here : List UnblindedTxo) (u : UnblindedTxo) → (In u r → Listed heights u)
          → (In u here
              → CoinOf w.config.policy_asset
                  (spent s)
                  s.cache.unblinded
                  h
                  (w.env.txid tx)
                  0
                  tx.output
                  u)
          → In u (here ++ r)
          → Listed ((id, h) ∷ heights) u
      to tx found r here u ih coin k = elim ((In-append u here r).0 k) [
        | inl a ↦ record {
          tx_id = id;
          height = h;
          tx = tx;
          listed = inl refl;
          stored = found;
          coin_of = coin a;
        }
        | inr b ↦
            let l = ih b in
            record {
              tx_id = l.tx_id;
              height = l.height;
              tx = l.tx;
              listed = inr l.listed;
              stored = l.stored;
              coin_of = l.coin_of;
            }
      ]

      from :
          (tx : Transaction)
          → get id s.cache.all_txs ≡ some tx
          → (r here : List UnblindedTxo) (u : UnblindedTxo) → (Listed heights u → In u r)
          → (CoinOf w.config.policy_asset
                (spent s)
                s.cache.unblinded
                h
                (w.env.txid tx)
                0
                tx.output
                u
              → In u here)
          → (j : Txid) (k : Option ℕ) (t : Transaction) → In (j, k) ((id, h) ∷ heights)
          → get j s.cache.all_txs ≡ some t
          → CoinOf w.config.policy_asset (spent s) s.cache.unblinded k (w.env.txid t) 0 t.output u
          → In u (here ++ r)
      from tx found r here u ih coin j k t (inr l) stored c = (In-append u here r).1 (
          inr (
            ih
              (record { tx_id = j; height = k; tx = t; listed = l; stored = stored; coin_of = c })))
      from tx found r here u ih coin j k t (inl same) stored c =
          let j_id : id ≡ j = cc in
          let k_h : k ≡ h = cc in
          let t_tx : t ≡ tx = cc in
          let c' =
            subst
              (λ x.
                CoinOf w.config.policy_asset (spent s) s.cache.unblinded x (w.env.txid t) 0 t.output
                  u)
              k_h c in
          (In-append u here r).1 (
            inl (
              coin (
                subst
                  (λ (x : Transaction).
                    CoinOf w.config.policy_asset (spent s) s.cache.unblinded h (w.env.txid x) 0
                      x.output u)
                  t_tx c')))

  -- Where every live transaction is stored, `utxos` succeeds and lists exactly the coins of the
  -- live transactions: the outputs that no stored transaction spends, that the wallet has
  -- unblinded, and that are not dust of the policy asset; in whatever order the map is iterated.
  pub utxos-LiveCoin :
      (orders : Orders)
      → Distinct s.cache.heights
      → ((id : Txid) (h : Option ℕ)
          → get id s.cache.heights ≡ some h
          → is_some (get id s.cache.all_txs) ≡ true)
      → (r : List UnblindedTxo) × (utxos w s orders ≡ ok r)
        × ((u : UnblindedTxo) → In u r ↔ LiveCoin u)
  unfolding utxos
  utxos-LiveCoin orders d known =
      let hs = orders.heights.order s.cache.heights in
      let e = orders.heights.order_distinct s.cache.heights d in
      let (r, run, same) = txos-Listed hs (λ id h l.
        known id h (sym (orders.heights.order_get s.cache.heights id d) ∙ get-In id h hs e l)) in
      let le : UnblindedTxo → UnblindedTxo → Bool =
        λ a b. leb b.unblinded.value a.unblinded.value in
      (
        sort_by le r,
        rw run refl,
        λ u. (
          λ h.
              let l = (same u).0 ((In-sort_by le u r).1 h) in
              record {
                tx_id = l.tx_id;
                height = l.height;
                tx = l.tx;
                live =
                    sym (orders.heights.order_get s.cache.heights l.tx_id d)
                    ∙ get-In l.tx_id l.height hs e l.listed;
                stored = l.stored;
                coin_of = l.coin_of;
              },
          λ c. (In-sort_by le u r).0 (
              (same u).1 (record {
                tx_id = c.tx_id;
                height = c.height;
                tx = c.tx;
                listed =
                    In-get c.tx_id c.height hs
                      (orders.heights.order_get s.cache.heights c.tx_id d ∙ c.live);
                stored = c.stored;
                coin_of = c.coin_of;
              })),
        ),
      )

abbrev pub coin_amounts : List UnblindedTxo → List (ℕ × ℕ)
coin_amounts = map (λ (u : UnblindedTxo). (u.unblinded.asset, u.unblinded.value))

traverse_ok :
    (us : List UnblindedTxo)
    → traverse (λ (u : UnblindedTxo). ok (u.unblinded.asset, u.unblinded.value)) us
      ≡ ok (coin_amounts us)
traverse_ok [] = refl
traverse_ok (u ∷ us) = rw (traverse_ok us) refl

-- The balance of an asset is the sum of the coins of it that `utxos` lists, where that fits a
-- `u64`; there is an entry for the policy asset, be it 0, and for each asset of a coin, and no other.
pub balance-total :
    (w : WalletCtx) (s : StoreMeta) (orders : Orders) (coins : List UnblindedTxo)
    → utxos w s orders ≡ ok coins
    → InRange (coin_amounts coins)
    → (m : Amounts) × (balance w s orders ≡ ok m)
      × ((a : AssetId) → amount a m ≡ total a (coin_amounts coins))
      × ((a : AssetId)
          → is_some (get a m)
            ≡ (if w.config.policy_asset == a then true else has a (coin_amounts coins)))
unfolding balance get insert
balance-total w s orders coins run fit =
    let p = w.config.policy_asset in
    let start : Amounts = (p, 0) ∷ [] in
    let zero_start : (a : ℕ) → amount a start ≡ 0 = λ a. ground arith in
    let (m, run', h) =
      accumulate-Holds w.env.build (λ (u : UnblindedTxo). ok (u.unblinded.asset, u.unblinded.value))
        coins (coin_amounts coins) start (traverse_ok coins) (refl, tt)
        (λ a. omega (arith, zero_start a, fit a)) in
    (
      m,
      rw run run',
      λ a. omega (arith, h.amounts a, zero_start a),
      λ a. ground (arith, h.entries a),
    )
