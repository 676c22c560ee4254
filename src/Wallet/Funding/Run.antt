-- ===== src/Wallet/Funding/Run.antt =====
-- src/interface.rs: what the loop that adds inputs does, round by round.
use bewallet.Common.{
  ℕ, zero, suc, ap, sym, ◌≤◌, ◌≡◌, ◌≢◌, refl, subst, ◌⊎◌, inl, inr, false, not, ◌&&◌, ◌==◌, nat_eq,
  some, List, [], ◌∷◌, arith, In, In-filter, filter-In, is_empty, get_last?, if◌then◌else◌,
  Option-cases, leb, filter,
}
use bewallet.Common.Sort.{sort_by}
use bewallet.Common.Sort.Laws.{last-sort_by, get_last?-none, In-sort_by}
use bewallet.Error.{Error, insufficient_funds}
use bewallet.Outcome.{Outcome, ok, err, panic, hang, ◌>>=◌, unwrap}
use bewallet.Map.{contains, set_insert}
use bewallet.Elements.{OutPoint, Transaction, outpoint_eq, AssetId}
use bewallet.Transaction.{add_input}
use bewallet.Model.{UnblindedTxo}
use bewallet.Wallet.Funding.{outpoint, asset_utxos, biggest, fund}

-- `u` is listed, unused, of the asset, and no other such output is bigger.
pub record IsBiggest (utxos : List UnblindedTxo) (used : List OutPoint) (asset : AssetId)
    (u : UnblindedTxo) : Type 0 where
  pub listed : In u utxos
  pub fresh : contains (outpoint u) used ≡ false
  pub of_asset : u.unblinded.asset ≡ asset
  pub greatest :
      (w : UnblindedTxo)
      → In w utxos
      → contains (outpoint w) used ≡ false
      → w.unblinded.asset ≡ asset
      → w.unblinded.value ≤ u.unblinded.value

pub biggest-IsBiggest :
    (utxos : List UnblindedTxo) (used : List OutPoint) (asset : AssetId) (u : UnblindedTxo)
    → biggest (asset_utxos asset used utxos) ≡ ok u
    → IsBiggest utxos used asset u
unfolding biggest asset_utxos
biggest-IsBiggest utxos used asset u h =
    let wanted =
      λ (w : UnblindedTxo). w.unblinded.asset == asset && not (contains (outpoint w) used) in
    let (here, top) =
      last-sort_by (λ (w : UnblindedTxo). w.unblinded.value) (filter wanted utxos) u
        (ground arith) in
    let (listed, passes) = In-filter wanted u utxos here in
    record {
      listed = listed;
      fresh = ground arith;
      of_asset = ground arith;
      greatest = λ w k f a. top w (filter-In wanted w utxos k (ground arith));
    }

-- A sum of nothing left: `biggest` fails only where no such output is there.
biggest-short :
    (utxos : List UnblindedTxo) (used : List OutPoint) (asset : AssetId) (e : Error)
    → biggest (asset_utxos asset used utxos) ≡ err e
    → (w : UnblindedTxo) → In w utxos
    → contains (outpoint w) used ≡ false
    → w.unblinded.asset ≢ asset
unfolding biggest asset_utxos
biggest-short utxos used asset e h w k f a =
    let wanted =
      λ (w : UnblindedTxo). w.unblinded.asset == asset && not (contains (outpoint w) used) in
    let le = λ (a b : UnblindedTxo). leb a.unblinded.value b.unblinded.value in
    let nothing : sort_by le (filter wanted utxos) ≡ [] = get_last?-none _ (ground arith) in
    let there =
      (In-sort_by le w (filter wanted utxos)).0 (filter-In wanted w utxos k (ground arith)) in
    subst (In w) nothing there

biggest-value : (xs : List UnblindedTxo) → ¬ ((biggest xs ≡ panic) ⊎ (biggest xs ≡ hang))
unfolding biggest
biggest-value xs h = ground arith

biggest-error : (xs : List UnblindedTxo) (c : Error) → biggest xs ≡ err c → c ≡ insufficient_funds
unfolding biggest
biggest-error xs c h = ground arith

cons-ne-nil {ℓ} : {A : Type ℓ} (x : A) (xs : List A) → x ∷ xs ≢ []
cons-ne-nil x xs e = cc

module _ (needs : ℕ → Transaction → Outcome (List (AssetId × ℕ))) (utxos : List UnblindedTxo) where
  -- The rounds that lead from a transaction and its used outputs to `last` and `last_used`.
  pub data Rounds (last : Transaction) (last_used : List OutPoint)
      : Transaction → List OutPoint → Type 0 where
    stop :
        {tx : Transaction} {used : List OutPoint}
        → tx ≡ last
        → used ≡ last_used
        → Rounds last last_used tx used
    pick :
        {tx : Transaction} {used : List OutPoint} (round : ℕ) (missing : List (AssetId × ℕ))
        (asset s : ℕ) (u : UnblindedTxo)
        → needs round tx ≡ ok missing
        → get_last? missing ≡ some (asset, s)
        → IsBiggest utxos used asset u
        → Rounds last last_used (add_input tx (outpoint u)) (set_insert (outpoint u) used)
        → Rounds last last_used tx used

  -- Nothing is missing any more.
  pub record Funded (tx : Transaction) (used : List OutPoint) (final : Transaction) : Type 0 where
    pub last_used : List OutPoint
    pub rounds : Rounds final last_used tx used
    pub round : ℕ
    pub enough : needs round final ≡ ok []

  -- An asset is missing, and no unused output holds it.
  pub record Short (tx : Transaction) (used : List OutPoint) : Type 0 where
    pub last : Transaction
    pub last_used : List OutPoint
    pub rounds : Rounds last last_used tx used
    pub round : ℕ
    pub missing : List (AssetId × ℕ)
    pub asset : AssetId
    pub amount : ℕ
    pub asked : needs round last ≡ ok missing
    pub lacks : get_last? missing ≡ some (asset, amount)
    pub none_left :
        (w : UnblindedTxo)
        → In w utxos
        → contains (outpoint w) last_used ≡ false
        → w.unblinded.asset ≢ asset

  abbrev pub Ends : Transaction → List OutPoint → Outcome Transaction → Type 0
  Ends tx used (ok final) = Funded tx used final
  Ends tx used (err e) =
      ((round : ℕ) × (last : Transaction) × (needs round last ≡ err e))
      ⊎ ((e ≡ insufficient_funds) × Short tx used)
  Ends tx used panic = (round : ℕ) × (last : Transaction) × (needs round last ≡ panic)
  Ends tx used hang = Unit

  Ends-pick :
      {tx : Transaction} {used : List OutPoint} (round : ℕ) (missing : List (AssetId × ℕ))
      (asset s : ℕ) (u : UnblindedTxo)
      → needs round tx ≡ ok missing
      → get_last? missing ≡ some (asset, s)
      → IsBiggest utxos used asset u
      → (o : Outcome Transaction)
      → Ends (add_input tx (outpoint u)) (set_insert (outpoint u) used) o
      → Ends tx used o
  Ends-pick round missing asset s u asked last b (ok final) h = record {
    last_used = h.last_used;
    rounds = pick round missing asset s u asked last b h.rounds;
    round = h.round;
    enough = h.enough;
  }
  Ends-pick round missing asset s u asked last b (err e) (inl h) = inl h
  Ends-pick round missing asset s u asked last b (err e) (inr (same, h)) =
      (inr (
        same,
        record {
          last = h.last;
          last_used = h.last_used;
          rounds = pick round missing asset s u asked last b h.rounds;
          round = h.round;
          missing = h.missing;
          asset = h.asset;
          amount = h.amount;
          asked = h.asked;
          lacks = h.lacks;
          none_left = h.none_left;
        },
      ))
  Ends-pick round missing asset s u asked last b panic h = h
  Ends-pick round missing asset s u asked last b hang h = tt

  -- One round with the outcome of `biggest` and of the rounds after it.
  Ends-biggest :
      {tx : Transaction} (used : List OutPoint) (round : ℕ) (missing : List (AssetId × ℕ))
      (asset s : ℕ)
      → needs round tx ≡ ok missing
      → get_last? missing ≡ some (asset, s)
      → (f : UnblindedTxo → Outcome Transaction)
      → ((u : UnblindedTxo) → Ends (add_input tx (outpoint u)) (set_insert (outpoint u) used) (f u))
      → Ends tx used (biggest (asset_utxos asset used utxos) >>= f)
  Ends-biggest {tx} used round missing asset s asked last f ih =
      go (biggest (asset_utxos asset used utxos)) refl
    where
      go :
          (m : Outcome UnblindedTxo)
          → biggest (asset_utxos asset used utxos) ≡ m
          → Ends tx used (m >>= f)
      go (ok u) e =
          Ends-pick round missing asset s u asked last (biggest-IsBiggest utxos used asset u e)
            (f u) (ih u)
      go (err c) e = inr (
        biggest-error _ c e,
        record {
          last = tx;
          last_used = used;
          rounds = stop refl refl;
          round = round;
          missing = missing;
          asset = asset;
          amount = s;
          asked = asked;
          lacks = last;
          none_left = biggest-short utxos used asset c e;
        },
      )
      go panic e = absurd (biggest-value _ (inl e))
      go hang e = absurd (biggest-value _ (inr e))

  -- How the loop ends: with a transaction to which nothing is missing; with `InsufficientFunds`,
  -- where an asset is missing of which every output is used; or as `needs` fails.
  pub fund-Ends :
      (rounds : ℕ) (tx : Transaction) (used : List OutPoint)
      → Ends tx used (fund needs utxos rounds tx used)
  unfolding fund
  fund-Ends zero tx used = tt
  fund-Ends (suc rounds) tx used =
      go (needs rounds tx) refl
        (λ u. fund-Ends rounds (add_input tx (outpoint u)) (set_insert (outpoint u) used))
    where
      after : UnblindedTxo → Outcome Transaction
      after u = fund needs utxos rounds (add_input tx (outpoint u)) (set_insert (outpoint u) used)

      body : List (AssetId × ℕ) → Outcome Transaction
      body missing =
          if is_empty missing
          then ok tx
          else (unwrap (get_last? missing) >>= λ x. biggest (asset_utxos x.0 used utxos) >>= after)

      more :
          (e : AssetId × ℕ) (ms : List (AssetId × ℕ))
          → needs rounds tx ≡ ok (e ∷ ms)
          → ((u : UnblindedTxo)
              → Ends (add_input tx (outpoint u)) (set_insert (outpoint u) used) (after u))
          → Ends tx used (body (e ∷ ms))
      more e ms asked ih = elim (Option-cases (get_last? (e ∷ ms))) [
        | inl nothing ↦ absurd (cons-ne-nil e ms (get_last?-none (e ∷ ms) nothing))
        | inr (x, last) ↦ rw last (Ends-biggest used rounds (e ∷ ms) x.0 x.1 asked last after ih)
      ]

      go :
          (m : Outcome (List (AssetId × ℕ)))
          → needs rounds tx ≡ m
          → ((u : UnblindedTxo)
              → Ends (add_input tx (outpoint u)) (set_insert (outpoint u) used) (after u))
          → Ends tx used (m >>= body)
      go (ok []) e ih = record {
        last_used = used;
        rounds = stop refl refl;
        round = rounds;
        enough = e;
      }
      go (ok (x ∷ ms)) e ih = more x ms e ih
      go (err c) e ih = inl (rounds, tx, e)
      go panic e ih = (rounds, tx, e)
      go hang e ih = tt

module _ (needs : ℕ → Transaction → Outcome (List (AssetId × ℕ))) (utxos : List UnblindedTxo) where
  -- The rounds leave the outputs alone.
  pub Rounds-output :
      {last : Transaction} {last_used : List OutPoint} {tx : Transaction} {used : List OutPoint}
      → Rounds needs utxos last last_used tx used
      → last.output ≡ tx.output
  unfolding add_input
  Rounds-output (stop e f) = ap (λ (t : Transaction). t.output) (sym e)
  Rounds-output (pick round missing asset s u asked lacks b rest) = Rounds-output rest
