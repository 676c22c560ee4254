-- ===== src/Wallet/Create/Completes.antt =====
-- src/interface.rs: what `create_tx` makes of a transaction to which nothing is missing.
use mathlib.Core.List.{Permᴰ}
use bewallet.Common.{
  ℕ, ◌+◌, ◌-◌, ◌<◌, ◌≤◌, ◌^◌, ◌≡◌, refl, sym, ap, ◌∙◌, some, List, [], ◌∷◌, ◌++◌, length, arith,
  nat_eq, nat_beq_iff, All,
}
use bewallet.Outcome.{ok, traverse}
use bewallet.Word.{u64_mod}
use bewallet.Map.{Amounts, Iteration, amount, or_zero, get}
use bewallet.Amounts.{total, sum, InRange}
use bewallet.Amounts.Laws.{InRange-tail}
use bewallet.Amounts.Sums.{
  values, total-append, sum-total, total-Distinct, has-total, total-le-sum, has-positive,
}
use bewallet.Amounts.Shuffles.{total-Permᴰ, any-Permᴰ, traverse-Permᴰ}
use bewallet.Elements.{F64, Asset, Value, TxIn, TxOut, Transaction, default_out}
use bewallet.Transaction.{input_amount, output_amount, scramble, add_fee_output, dust_value}
use bewallet.Transaction.Fee.{estimated_fee, estimated_changes}
use bewallet.Transaction.Fee.Exact.{TxOutLaws, fee-implicit}
use bewallet.Transaction.Needs.{needs}
use bewallet.Transaction.Needs.Exact.{needs-IsMissing, fee_of}
use bewallet.Transaction.Changes.{changes}
use bewallet.Transaction.Changes.Loop.{change, due}
use bewallet.Transaction.Changes.Loop
use bewallet.Transaction.Changes.Exact.{changes-exact}
use bewallet.Store.{StoreMeta}
use bewallet.Wallet.Context.{WalletCtx, Orders}
use bewallet.Wallet.Create.{finish, complete}
use bewallet.Wallet.Create.Outputs.{KeyLaws, Outs, add_changes-Outs, traverse-snoc}

pub record Shuffles (orders : Orders) : Type 0 where
  pub ins : (xs : List TxIn) → Permᴰ xs (orders.shuffle_in xs)
  pub outs : (xs : List TxOut) → Permᴰ xs (orders.shuffle_out xs)

-- The amounts: nothing is missing, all fit, and the change is what `changes-exact` says.
module _ (policy fee : ℕ) (outs ins es : List (ℕ × ℕ))
    (nothing_missing : (a : ℕ) → (total a outs + fee_of policy fee a) - total a ins ≡ 0)
    (back : (a : ℕ) → total a es ≡ change policy fee a (total a ins - total a outs)) where
  abbrev pub left_over : ℕ
  left_over = total policy ins - total policy (outs ++ es)

  pub left_over-bounds : (fee ≤ left_over) × (left_over ≤ fee + dust_value)
  unfolding change
  left_over-bounds = ground (
    arith,
    nothing_missing policy,
    back policy,
    total-append policy outs es,
    nat_beq_iff policy policy,
  )

  pub balanced : (a : ℕ) → total a ((policy, left_over) ∷ outs ++ es) ≡ total a ins
  unfolding total change
  balanced a =
      ground (arith, nothing_missing a, back a, total-append a outs es, nat_beq_iff policy a)

  sums : sum (values ins) ≡ left_over + sum (values (outs ++ es))
  unfolding sum
  sums = sym (sum-total ((policy, left_over) ∷ outs ++ es) ins balanced)

-- The transaction spends what it is given, asset by asset, the fee output included, and the fee is
-- the estimated one with at most the dust that is not worth a change output.
pub record Completed (w : WalletCtx) (s : StoreMeta) (estimated : ℕ) (tx : Transaction) (fee : ℕ)
    : Type 0 where
  pub outs : List (ℕ × ℕ)
  pub ins : List (ℕ × ℕ)
  pub outs_known : traverse output_amount tx.output ≡ ok outs
  pub ins_known : traverse (input_amount w.env s.cache.all_txs s.cache.unblinded) tx.input ≡ ok ins
  pub conserves : (a : ℕ) → total a outs ≡ total a ins
  pub at_least : estimated ≤ fee
  pub at_most : fee ≤ estimated + dust_value

sum-Permᴰ : {xs ys : List (ℕ × ℕ)} → Permᴰ xs ys → sum (values ys) ≡ sum (values xs)
sum-Permᴰ {xs} {ys} p = sum-total ys xs (λ a. sym (total-Permᴰ a p))

add_fee_output-lem :
    (tx : Transaction) (v policy : ℕ) (outs : List (ℕ × ℕ))
    → traverse output_amount tx.output ≡ ok outs
    → (tx' : Transaction) × (add_fee_output tx v (some (Asset.explicit policy)) ≡ ok tx')
      × (tx'.input ≡ tx.input)
      × (traverse output_amount tx'.output ≡ ok (outs ++ (policy, v) ∷ []))
unfolding add_fee_output output_amount
add_fee_output-lem tx v policy outs h =
    let out : TxOut = record default_out {
      asset = Asset.explicit policy;
      value = Value.explicit v;
    } in
    (
      record tx { output = tx.output ++ out ∷ [] },
      refl,
      refl,
      traverse-snoc output_amount tx.output out h refl,
    )

module _ (w : WalletCtx) (keys : KeyLaws w) (laws : TxOutLaws w.env) (s : StoreMeta)
    (orders : Orders) (shuffles : Shuffles orders) (tx : Transaction) (policy estimated : ℕ)
    (outs ins es : List (ℕ × ℕ)) (is_policy : w.config.policy_asset ≡ policy)
    (o : Outs w.env tx outs)
    (ins_known : traverse (input_amount w.env s.cache.all_txs s.cache.unblinded) tx.input ≡ ok ins)
    (ins_fit : sum (values ins) < u64_mod)
    (nothing_missing : (a : ℕ) → (total a outs + fee_of policy estimated a) - total a ins ≡ 0)
    (back : (a : ℕ) → total a es ≡ change policy estimated a (total a ins - total a outs))
    (indexes_fit : s.cache.indexes.internal + 0 + length es < 2 ^ 31) where
  finishes :
      (tx' : Transaction) × (fee_val : ℕ) × (finish w s orders es tx ≡ ok (tx', fee_val))
      × Completed w s estimated tx' fee_val
  unfolding finish scramble total
  finishes =
      let (tx₁, run₁, same₁, o₁) = add_changes-Outs w keys laws s es 0 tx outs indexes_fit o in
      let tx₂ = scramble orders.shuffle_in orders.shuffle_out tx₁ in
      let in_perm = shuffles.ins tx₁.input in
      let out_perm = shuffles.outs tx₁.output in
      let (outs', outs_run, outs_perm) = traverse-Permᴰ output_amount out_perm o₁.amounts in
      let (ins', ins_run, ins_perm) =
        traverse-Permᴰ (input_amount w.env s.cache.all_txs s.cache.unblinded) in_perm (
          ap (λ l. traverse (input_amount w.env s.cache.all_txs s.cache.unblinded) l) same₁
          ∙ ins_known) in
      let f = left_over policy estimated outs ins es nothing_missing back in
      let all = sums policy estimated outs ins es nothing_missing back in
      let bounds = left_over-bounds policy estimated outs ins es nothing_missing back in
      let run₂ =
        fee-implicit w.env laws tx₂ s.cache.all_txs s.cache.unblinded (some (Asset.explicit policy))
          outs' ins' (sym (any-Permᴰ w.env.is_fee out_perm) ∙ o₁.no_fee) outs_run ins_run
          (omega (arith, sum-Permᴰ ins_perm, ins_fit))
          (omega (arith, sum-Permᴰ ins_perm, sum-Permᴰ outs_perm, all)) in
      let is_f : sum (values ins') - sum (values outs') ≡ f =
        omega (arith, sum-Permᴰ ins_perm, sum-Permᴰ outs_perm, all) in
      let (tx₃, run₃, same₃, outs_known) = add_fee_output-lem tx₂ f policy outs' outs_run in
      (
        tx₃,
        f,
        rw (is_policy, run₁, run₂, is_f, run₃) refl,
        record {
          outs = outs' ++ (policy, f) ∷ [];
          ins = ins';
          outs_known = outs_known;
          ins_known =
              ap (λ l. traverse (input_amount w.env s.cache.all_txs s.cache.unblinded) l) same₃
              ∙ ins_run;
          conserves = λ a. omega (
            arith,
            total-append a outs' ((policy, f) ∷ []),
            total-Permᴰ a outs_perm,
            total-Permᴰ a ins_perm,
            balanced policy estimated outs ins es nothing_missing back a,
          );
          at_least = bounds.0;
          at_most = bounds.1;
        },
      )

-- Where every output of a transaction is explicit, positive and no fee, every spent output known,
-- `needs` finds nothing missing, and no sum overflows a `u64` nor a change index 2 ^ 31: the
-- completion of the transaction succeeds, in both builds and whatever the orders and the shuffles.
-- The result spends of each asset exactly what its inputs hold, the fee output included, and its
-- fee is at least the estimated fee and at most that and 546.
pub complete-conserves :
    (w : WalletCtx) (s : StoreMeta) (orders : Orders) (iteration : Iteration) (tx : Transaction)
    (fee_rate : F64) (outs ins : List (ℕ × ℕ)) (more_changes estimated : ℕ)
    → KeyLaws w
    → TxOutLaws w.env
    → Shuffles orders
    → Outs w.env tx outs
    → All (λ (e : ℕ × ℕ). 0 < e.1) outs
    → traverse (input_amount w.env s.cache.all_txs s.cache.unblinded) tx.input ≡ ok ins
    → estimated_changes w.env tx s.cache.all_txs s.cache.unblinded ≡ ok more_changes
    → estimated_fee w.env tx fee_rate more_changes ≡ ok estimated
    → InRange ((w.config.policy_asset, estimated) ∷ outs)
    → sum (values ins) < u64_mod
    → needs w.env iteration tx fee_rate w.config.policy_asset s.cache.all_txs s.cache.unblinded
      ≡ ok []
    → ((change : Amounts)
        → changes w.env orders.inputs tx estimated w.config.policy_asset s.cache.all_txs
            s.cache.unblinded
          ≡ ok change
        → s.cache.indexes.internal + 0 + length (orders.changes.order change) < 2 ^ 31)
    → (tx' : Transaction) × (fee_val : ℕ) × (complete w s orders fee_rate tx ≡ ok (tx', fee_val))
      × Completed w s estimated tx' fee_val
unfolding complete get
complete-conserves w s orders iteration tx fee_rate outs ins more_changes estimated keys laws
      shuffles o positive ins_known changes_known fee_known outs_fit ins_fit funded indexes_fit =
    let policy = w.config.policy_asset in
    let in_range : InRange ins = λ a. omega (arith, total-le-sum a ins, ins_fit) in
    let (r, run, m) =
      needs-IsMissing w.env iteration tx fee_rate policy s.cache.all_txs s.cache.unblinded outs ins
        more_changes estimated o.amounts ins_known changes_known fee_known outs_fit in_range in
    let empty : [] ≡ r = cc in
    let nothing_missing : (a : ℕ) → (total a outs + fee_of policy estimated a) - total a ins ≡ 0 =
      λ a. sym (m.exact a) ∙ ap (amount a) (sym empty) in
    let (change, run', d, exact) =
      changes-exact w.env orders.inputs tx policy estimated s.cache.all_txs s.cache.unblinded outs
        ins o.amounts ins_known (InRange-tail (policy, estimated) outs outs_fit) in_range
        (λ a h. omega (arith, nothing_missing a))
        (λ a h. ground (arith, nothing_missing a, has-total a ins, has-positive a outs positive)) in
    let es = orders.changes.order change in
    let back : (a : ℕ) → total a es ≡ Loop.change policy estimated a (total a ins - total a outs) =
      λ a.
        total-Distinct a es (orders.changes.order_distinct change d)
        ∙ ap or_zero (orders.changes.order_get change a d)
        ∙ exact a in
    let (tx', fee_val, run'', c) =
      finishes w keys laws s orders shuffles tx policy estimated outs ins es refl o ins_known
        ins_fit nothing_missing back (indexes_fit change run') in
    (tx', fee_val, rw (changes_known, fee_known, run') run'', c)
