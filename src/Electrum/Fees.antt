-- ===== src/Electrum/Fees.antt =====
-- src/lib.rs and src/store.rs: the fee estimates that the wallet keeps.
use bewallet.Common.{
  ℕ, suc, ◌+◌, ◌≤◌, ◌≡◌, refl, ap, ◌∙◌, List, [], ◌∷◌, map, length, max, All, arith,
}
use bewallet.Outcome.{Outcome, ok, ◌>>=◌}
use bewallet.Elements.{F64, Env}
use bewallet.Store.{StoreMeta, fee_estimates}
use bewallet.Sync.Client.{Client}
use bewallet.Spv.{try_get_fee_estimates}
use bewallet.Electrum.{ElectrumWallet, if_client, with_client, or_keep, update_fee_estimates}

-- The targets in blocks.
abbrev pub targets : List ℕ
targets =
    1 ∷ 2 ∷ 3 ∷ 4 ∷ 5 ∷ 6 ∷ 7 ∷ 8 ∷ 9 ∷ 10 ∷ 11 ∷ 12 ∷ 13 ∷ 14 ∷ 15 ∷ 16 ∷ 17 ∷ 18 ∷ 19 ∷ 20 ∷ 21
    ∷ 22 ∷ 23 ∷ 24 ∷ []

raised :
    (relay : ℕ) (f : F64 → ℕ) (es : List F64) → All (λ e. relay ≤ e) (map (λ e. max relay (f e)) es)
raised relay f [] = tt
raised relay f (e ∷ es) = (omega arith, raised relay f es)

length-map : {A B : Type 0} (f : A → B) (xs : List A) → length (map f xs) ≡ length xs
length-map f [] = refl
length-map f (x ∷ xs) = ap suc (length-map f xs)

-- Satoshi per kilobyte of what the server gives in bitcoin.
abbrev pub satoshi : Env → F64 → ℕ
satoshi env fee = env.f64_to_u64 (env.f64_mul fee (env.f64 "100_000_000.0"))

update : ElectrumWallet → StoreMeta → Client → StoreMeta × Outcome (Unit {0})
update n s client = or_keep s (
    try_get_fee_estimates n.swapper.w.env client >>= λ es.
    ok (record s { cache = record s.cache { fee_estimates = es } }))

-- After an update that the server answers, the wallet's estimates have one entry more than the
-- server's, and none of them is below the relay fee.
pub update_fee_estimates-bounds :
    (n : ElectrumWallet) (s : StoreMeta) (client : Client) (relay : F64) (es : List F64)
    → n.build_client n.swapper.w.config.electrum_url ≡ ok client
    → client.relay_fee ≡ ok relay
    → client.batch_estimate_fee targets ≡ ok es
    → (s' : StoreMeta) × (update_fee_estimates n s ≡ (s', ok tt))
      × (length (fee_estimates s') ≡ length es + 1)
      × All (λ e. satoshi n.swapper.w.env relay ≤ e) (fee_estimates s')
unfolding update_fee_estimates with_client if_client or_keep update try_get_fee_estimates
    fee_estimates
update_fee_estimates-bounds n s client relay es built relayed estimated =
    let env = n.swapper.w.env in
    let got : try_get_fee_estimates env client
        ≡ ok (satoshi env relay ∷ map (λ e. max (satoshi env relay) (satoshi env e)) es) =
      rw (relayed, estimated) refl in
    let fees : List ℕ = map (λ e. max (satoshi env relay) (satoshi env e)) es in
    (
      record s { cache = record s.cache { fee_estimates = satoshi env relay ∷ fees } },
      ap (λ o. if_client o (update n s) s) built
          ∙ ap
              (λ o.
                or_keep s
                  (o >>= λ es. ok (record s { cache = record s.cache { fee_estimates = es } })))
              got,
      omega (arith, length-map (λ e. max (satoshi env relay) (satoshi env e)) es),
      (omega arith, raised (satoshi env relay) (satoshi env) es),
    )
