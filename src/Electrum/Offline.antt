-- ===== src/Electrum/Offline.antt =====
-- src/lib.rs: the wallet and the errors of its server.
use bewallet.Common.{◌≡◌, ◌≢◌}
use bewallet.Error.{Error}
use bewallet.Outcome.{Outcome, ok, err, panic, hang, ◌>>◌}
use bewallet.Store.{StoreMeta}
use bewallet.Sync.Client.{Client}
use bewallet.Electrum.{
  ElectrumWallet, Chances, if_client, with_client, log_error, or_keep, update_fee_estimates,
  update_tip, update_spv, sync_store, synced,
}

log_error-ne-err : {A : Type 0} (o : Outcome A) (e : Error) → log_error o ≢ err e
unfolding log_error
log_error-ne-err (ok a) e = λ q. cc
log_error-ne-err (err c) e = λ q. cc
log_error-ne-err panic e = λ q. cc
log_error-ne-err hang e = λ q. cc

or_keep-ne-err : (s : StoreMeta) (o : Outcome StoreMeta) (e : Error) → (or_keep s o).1 ≢ err e
unfolding or_keep
or_keep-ne-err s (ok t) e = λ q. cc
or_keep-ne-err s (err c) e = λ q. cc
or_keep-ne-err s panic e = λ q. cc
or_keep-ne-err s hang e = λ q. cc

module _ (n : ElectrumWallet) (e : Error) where
  with_client-ne-err :
      (run : Client → StoreMeta × Outcome (Unit {0})) (s : StoreMeta)
      → ((client : Client) → (run client).1 ≢ err e)
      → (with_client n run s).1 ≢ err e
  unfolding with_client if_client
  with_client-ne-err run s h = cases (n.build_client n.swapper.w.config.electrum_url)
    where
      cases : (o : Outcome Client) → (if_client o run s).1 ≢ err e
      cases (ok client) = h client
      cases (err c) = λ q. cc
      cases panic = λ q. cc
      cases hang = λ q. cc

  fees-ne-err : (s : StoreMeta) → (update_fee_estimates n s).1 ≢ err e
  unfolding update_fee_estimates
  fees-ne-err s = with_client-ne-err _ s (λ client. or_keep-ne-err s _ e)

  tip-ne-err : (s : StoreMeta) → (update_tip n s).1 ≢ err e
  unfolding update_tip
  tip-ne-err s = with_client-ne-err _ s (λ client. or_keep-ne-err s _ e)

  spv-ne-err : (ch : Chances) (s : StoreMeta) → (update_spv n ch s).1 ≢ err e
  unfolding update_spv
  spv-ne-err ch s =
      cases (update_tip n s).1 (tip-ne-err s) _
        (with_client-ne-err _ (update_tip n s).0 (λ client. or_keep-ne-err (update_tip n s).0 _ e))
    where
      cases :
          (r : Outcome (Unit {0}))
          → r ≢ err e
          → (proved : StoreMeta × Outcome (Unit {0})) → proved.1 ≢ err e
          → (elim r as (λ _. StoreMeta × Outcome (Unit {0})) [
            | ok _ ↦ proved
            | err c ↦ ((update_tip n s).0, err c)
            | panic ↦ ((update_tip n s).0, panic)
            | hang ↦ ((update_tip n s).0, hang)
          ]).1
            ≢ err e
      cases (ok _) k proved h = h
      cases (err c) k proved h = k
      cases panic k proved h = λ q. cc
      cases hang k proved h = λ q. cc

  sync_store-ne-err : (ch : Chances) (s : StoreMeta) → (sync_store n ch s).1 ≢ err e
  unfolding sync_store
  sync_store-ne-err ch s = with_client-ne-err _ s (λ client. log_error-ne-err _ e)

module _ (n : ElectrumWallet) (ch : Chances) (s : StoreMeta) where
  -- Whatever the server does, the updates of the fee estimates, of the tip and of the proofs and the
  -- sync return no error, and an error of an
  -- operation that syncs and then asks the wallet (`balance`, `tx_status`, `transactions`, `utxos`,
  -- `create_tx`) is what the wallet answers for the store that the sync left.
  pub synced-error :
      {A : Type 0} (ask : StoreMeta → Outcome A) (e : Error)
      → ((update_fee_estimates n s).1 ≢ err e)
        × ((update_tip n s).1 ≢ err e)
        × ((update_spv n ch s).1 ≢ err e)
        × ((sync_store n ch s).1 ≢ err e)
        × ((synced n ch ask s).1 ≡ err e → ask (synced n ch ask s).0 ≡ err e)
  unfolding synced
  synced-error ask e = (
    fees-ne-err n e s,
    tip-ne-err n e s,
    spv-ne-err n e ch s,
    sync_store-ne-err n e ch s,
    own (sync_store n ch s).1 (sync_store-ne-err n e ch s),
  )
    where
      own :
          (r : Outcome (Unit {0}))
          → r ≢ err e
          → (r >> ask (sync_store n ch s).0) ≡ err e
          → ask (sync_store n ch s).0 ≡ err e
      own (ok _) k q = q
      own (err c) k q = absurd (k q')
        where
          q' : ◌≡◌ {A = Outcome (Unit {0})} (err c) (err e)
          q' = cc
      own panic k q = absurd cc
      own hang k q = absurd cc
