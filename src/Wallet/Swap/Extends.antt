-- ===== src/Wallet/Swap/Extends.antt =====
-- src/interface.rs: the steps of `liquidex_take` before the blinding add inputs and outputs only.
use mathlib.Core.List.{append_assoc, append-nil}
use bewallet.Common.{
  ℕ, suc, ◌+◌, ◌≡◌, refl, sym, ap, subst, ◌∙◌, List, [], ◌∷◌, ◌++◌, get_elem?, length, String,
}
use bewallet.Outcome.{Outcome, ok, >>=-eq-ok, ok_inj, unwrap, ok_or}
use bewallet.Word.{add_u32}
use bewallet.Elements.{Env, AssetId, Address, OutPoint, TxIn, TxOut, TxOutSecrets, Transaction}
use bewallet.Transaction.{add_input, add_output}
use bewallet.Transaction.Fee.{estimated_fee}
use bewallet.Model.{UnblindedTxo}
use bewallet.Store.{StoreMeta}
use bewallet.Liquidex.{liquidex_estimated_changes, liquidex_changes, liquidex_fee, liquidex_needs}
use bewallet.Wallet.Context.{WalletCtx, Orders, derive_address}
use bewallet.Wallet.Coins.{utxos}
use bewallet.Wallet.Funding.{fund, outpoint}
use bewallet.Wallet.Funding.Run.{Rounds, stop, pick, Ends, fund-Ends}
use bewallet.Wallet.Create.{add_changes}
use bewallet.Wallet.Swap.{Swapper, take_fund, take_balance, take_fee_rate, used_at_first}

-- Inputs and outputs are added behind those that are there.
pub record Extends (tx tx' : Transaction) : Type 0 where
  pub ins : List TxIn
  pub outs : List TxOut
  pub input : tx'.input ≡ tx.input ++ ins
  pub output : tx'.output ≡ tx.output ++ outs

pub Extends-refl : (tx : Transaction) → Extends tx tx
Extends-refl tx = record {
  ins = [];
  outs = [];
  input = sym (append-nil tx.input);
  output = sym (append-nil tx.output);
}

pub Extends-trans : {a b c : Transaction} → Extends a b → Extends b c → Extends a c
Extends-trans {a} {b} {c} e f = record {
  ins = e.ins ++ f.ins;
  outs = e.outs ++ f.outs;
  input = f.input ∙ ap (λ l. l ++ f.ins) e.input ∙ append_assoc a.input e.ins f.ins;
  output = f.output ∙ ap (λ l. l ++ f.outs) e.output ∙ append_assoc a.output e.outs f.outs;
}

add_input-Extends : (tx : Transaction) (p : OutPoint) → Extends tx (add_input tx p)
unfolding add_input
add_input-Extends tx p = record {
  ins = _;
  outs = [];
  input = refl;
  output = sym (append-nil tx.output);
}

pub add_output-Extends :
    (env : Env) (tx : Transaction) (a : Address) (v : ℕ) (hex : String) {tx' : Transaction}
    → add_output env tx a v hex ≡ ok tx'
    → Extends tx tx'
unfolding add_output
add_output-Extends env tx a v hex run =
    let (b, _, h₁) = >>=-eq-ok (ok_or a.blinding_pubkey _) _ run in
    let (id, _, done) = >>=-eq-ok (env.from_hex hex) _ h₁ in
    subst (Extends tx) (ok_inj done)
      (record { ins = []; outs = _; input = sym (append-nil tx.input); output = refl })

module _ (needs : ℕ → Transaction → Outcome (List (AssetId × ℕ))) (coins : List UnblindedTxo) where
  Rounds-Extends :
      {last : Transaction} {last_used : List OutPoint} {tx : Transaction} {used : List OutPoint}
      → Rounds needs coins last last_used tx used
      → Extends tx last
  Rounds-Extends {last} {last_used} {tx} (stop e f) = subst (Extends tx) e (Extends-refl tx)
  Rounds-Extends {last} {last_used} {tx} (pick round missing asset s u asked lacks b rest) =
      Extends-trans (add_input-Extends tx (outpoint u)) (Rounds-Extends rest)

  pub fund-Extends :
      (rounds : ℕ) (tx : Transaction) (used : List OutPoint) {last : Transaction}
      → fund needs coins rounds tx used ≡ ok last
      → Extends tx last
  fund-Extends rounds tx used run =
      let f = subst (Ends needs coins tx used) run (fund-Ends needs coins rounds tx used) in
      Rounds-Extends f.rounds

add_changes-Extends :
    (w : WalletCtx) (s : StoreMeta) (es : List (AssetId × ℕ)) (i : ℕ) (tx : Transaction)
    {tx' : Transaction}
    → add_changes w s es i tx ≡ ok tx'
    → Extends tx tx'
unfolding add_changes
add_changes-Extends w s [] i tx run = subst (Extends tx) (ok_inj run) (Extends-refl tx)
add_changes-Extends w s ((a, v) ∷ es) i tx run =
    let (next, _, h₁) = >>=-eq-ok (add_u32 w.env.build s.cache.indexes.internal i) _ run in
    let (index, _, h₂) = >>=-eq-ok (add_u32 w.env.build next 1) _ h₁ in
    let (to, _, h₃) = >>=-eq-ok (derive_address w 1 index) _ h₂ in
    let (tx₁, added, rest) = >>=-eq-ok (add_output w.env tx to v (w.env.to_hex a)) _ h₃ in
    Extends-trans (add_output-Extends w.env tx to v (w.env.to_hex a) added)
      (add_changes-Extends w s es (i + 1) tx₁ rest)

module _ (k : Swapper) (s : StoreMeta) (orders : Orders)
    (maker_input maker_output : TxOutSecrets) where
  pub take_fund-Extends :
      (tx : Transaction) {tx' : Transaction}
      → take_fund k s orders maker_input maker_output tx ≡ ok tx'
      → Extends tx tx'
  unfolding take_fund
  take_fund-Extends tx run =
      let (coins, _, h₁) = >>=-eq-ok (utxos k.w s orders) _ run in
      let (input, _, funded) = >>=-eq-ok (unwrap (get_elem? tx.input 0)) _ h₁ in
      fund-Extends
        (λ round t.
          liquidex_needs k.w.env maker_input maker_output t s.cache.unblinded (orders.rounds round)
            (take_fee_rate k) k.w.config.policy_asset)
        coins (suc (length coins)) tx (used_at_first k coins input.previous_output) funded

  pub take_balance-Extends :
      (tx : Transaction) {tx' : Transaction}
      → take_balance k s orders maker_input maker_output tx ≡ ok tx'
      → Extends tx tx'
  unfolding take_balance
  take_balance-Extends tx run =
      let env = k.w.env in
      let policy = k.w.config.policy_asset in
      let (more, _, h₁) =
        >>=-eq-ok (liquidex_estimated_changes env maker_input maker_output tx s.cache.unblinded) _
          run in
      let (estimated, _, h₂) = >>=-eq-ok (estimated_fee env tx (take_fee_rate k) more) _ h₁ in
      let (changes, _, h₃) =
        >>=-eq-ok
          (liquidex_changes env maker_input maker_output tx s.cache.unblinded orders.inputs
            estimated policy)
          _ h₂ in
      let es = orders.changes.order changes in
      let (with_changes, added, h₄) = >>=-eq-ok (add_changes k.w s es 0 tx) _ h₃ in
      let (fee_value, _, done) =
        >>=-eq-ok (liquidex_fee env maker_input maker_output with_changes s.cache.unblinded policy)
          _ h₄ in
      Extends-trans (add_changes-Extends k.w s es 0 tx added) (
        subst (Extends with_changes) (ok_inj done) (record {
          ins = [];
          outs = _;
          input = sym (append-nil with_changes.input);
          output = refl;
        }))
