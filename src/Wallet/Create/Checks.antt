-- ===== src/Wallet/Create/Checks.antt =====
-- src/interface.rs: which requests pass the checks of `create_tx`.
use bewallet.Common.{
  ◌<◌, ◌≡◌, ◌≢◌, ◌↔◌, refl, Bool, true, false, not, List, [], ◌∷◌, any, All, is_empty, arith,
  nat_beq, nat_beq_iff, nat_eq,
}
use bewallet.Outcome.{Outcome, ok, ◌>>◌, fail_if, >>=-eq-ok}
use bewallet.Error.{Error, invalid_address, invalid_amount, empty_addressees}
use bewallet.Model.{Destination, CreateTransactionOpt, TransactionDetails}
use bewallet.Transaction.{dust_value}
use bewallet.Store.{StoreMeta}
use bewallet.Wallet.Context.{WalletCtx, Orders, address_params}
use bewallet.Wallet.Create.{check_addressees, is_dust_amount, create_tx}

-- An address of the wallet's network, and an amount that is not 0, nor dust of the policy asset.
pub record Payable (w : WalletCtx) (d : Destination) : Type 0 where
  pub network : d.address.params ≡ address_params w
  pub positive : 0 < d.satoshi
  pub no_dust : d.asset ≡ w.config.policy_asset → dust_value < d.satoshi

fail_if-ok : (b : Bool) (e : Error) → (fail_if b e ≡ ok tt) → b ≡ false
fail_if-ok false e h = refl
fail_if-ok true e h = absurd cc

any-All : {A : Type 0} (p : A → Bool) (xs : List A) → (any p xs ≡ false) ↔ All (λ x. p x ≡ false) xs
any-All p [] = (λ h. tt, λ h. refl)
any-All p (x ∷ xs) = ground (arith, any-All p xs)

All-map :
    {A : Type 0} {P Q : A → Type 0} → ((x : A) → P x → Q x) → (xs : List A) → All P xs → All Q xs
All-map f [] h = tt
All-map f (x ∷ xs) h = (f x h.0, All-map f xs h.1)

module _ (w : WalletCtx) where
  passes :
      (d : Destination)
      → not (nat_beq d.address.params (address_params w)) ≡ false
      → nat_beq d.satoshi 0 ≡ false
      → is_dust_amount w.config.policy_asset d ≡ false
      → Payable w d
  unfolding is_dust_amount
  passes d a b c = record {
    network = ground (arith, a, nat_beq_iff d.address.params (address_params w));
    positive = ground (arith, b);
    no_dust = λ same. ground (arith, c, same, nat_beq_iff d.asset w.config.policy_asset);
  }

  payables :
      (ds : List Destination)
      → All (λ d. not (nat_beq d.address.params (address_params w)) ≡ false) ds
      → All (λ d. nat_beq d.satoshi 0 ≡ false) ds
      → All (λ d. is_dust_amount w.config.policy_asset d ≡ false) ds
      → All (Payable w) ds
  payables [] a b c = tt
  payables (d ∷ ds) a b c = (passes d a.0 b.0 c.0, payables ds a.1 b.1 c.1)

  passed_network :
      (d : Destination) → Payable w d → not (nat_beq d.address.params (address_params w)) ≡ false
  passed_network d p = ground (arith, p.network, nat_beq_iff d.address.params (address_params w))

  passed_positive : (d : Destination) → Payable w d → nat_beq d.satoshi 0 ≡ false
  passed_positive d p = ground (arith, p.positive)

  passed_no_dust : (d : Destination) → Payable w d → is_dust_amount w.config.policy_asset d ≡ false
  unfolding is_dust_amount
  passed_no_dust d p = ground (arith, p.no_dust, nat_beq_iff d.asset w.config.policy_asset)

  -- A request passes the checks exactly if it has an addressee and every addressee is payable: its
  -- address is of the wallet's network, its amount is not 0, and not dust of the policy asset.
  pub check_addressees-Payable :
      (ds : List Destination) → (check_addressees w ds ≡ ok tt) ↔ ((ds ≢ []) × All (Payable w) ds)
  unfolding check_addressees
  check_addressees-Payable ds = (to, from)
    where
      foreign : Destination → Bool
      foreign d = not (nat_beq d.address.params (address_params w))

      null : Destination → Bool
      null d = nat_beq d.satoshi 0

      dust : Destination → Bool
      dust d = is_dust_amount w.config.policy_asset d

      checks : Bool → Bool → Bool → Bool → Outcome (Unit {0})
      checks a b c d = do
        fail_if a invalid_address
        fail_if b empty_addressees
        fail_if c invalid_amount
        fail_if d invalid_amount

      checks_ok :
          (a b c d : Bool)
          → checks a b c d ≡ ok tt
          → (a ≡ false) × (b ≡ false) × (c ≡ false) × (d ≡ false)
      checks_ok false false false false h = (refl, refl, refl, refl)
      checks_ok true b c d h = absurd cc
      checks_ok false true c d h = absurd cc
      checks_ok false false true d h = absurd cc
      checks_ok false false false true h = absurd cc

      nonempty : (xs : List Destination) → (is_empty xs ≡ false) ↔ (xs ≢ [])
      nonempty [] = (λ h. absurd cc, λ h. absurd (h refl))
      nonempty (x ∷ xs) = (λ h e. cc, λ h. refl)

      to : check_addressees w ds ≡ ok tt → (ds ≢ []) × All (Payable w) ds
      to h =
          let (a, b, c, d) =
            checks_ok (any foreign ds) (is_empty ds) (any null ds) (any dust ds) h in
          (
            (nonempty ds).0 b,
            payables ds ((any-All foreign ds).0 a) ((any-All null ds).0 c) ((any-All dust ds).0 d),
          )

      from : (ds ≢ []) × All (Payable w) ds → check_addressees w ds ≡ ok tt
      from (n, ps) =
          rw
            (
              (any-All foreign ds).1 (All-map passed_network ds ps),
              (nonempty ds).1 n,
              (any-All null ds).1 (All-map passed_positive ds ps),
              (any-All dust ds).1 (All-map passed_no_dust ds ps),
            )
            refl

-- A transaction is only created for addressees that are all payable.
pub create_tx-Payable :
    (w : WalletCtx) (s : StoreMeta) (orders : Orders) (opt : CreateTransactionOpt)
    {d : TransactionDetails}
    → create_tx w s orders opt ≡ ok d
    → All (Payable w) opt.addressees
unfolding create_tx
create_tx-Payable w s orders opt h =
    let (_, passed, _) = >>=-eq-ok (check_addressees w opt.addressees) _ h in
    ((check_addressees-Payable w opt.addressees).0 passed).1
