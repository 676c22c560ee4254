-- ===== src/Wallet/History/Newest.antt =====
-- src/interface.rs: the order of `list_tx`, and its pages.
use bewallet.Common.{
  Bool-cases, nat_beq, inl, inr, ◌<◌, ◌≤◌, ◌-◌, none, ℕ, zero, suc, ◌+◌, ◌≡◌, ◌⊎◌, refl, sym, ap,
  subst, ◌∙◌, true, Option, some, List, [], ◌∷◌, ◌++◌, In, arith, nat_eq, take, drop,
}
use bewallet.Common.Sort.{sort_by}
use bewallet.Common.Sort.Laws.{In-sort_by}
use bewallet.Common.Sort.Unique.{NoDup, Sorted, sort_by-NoDup, sort_by-Sorted, Sorted-unique}
use bewallet.Outcome.{Outcome, ok, ok_inj, traverse, traverse-cons}
use bewallet.Map.{Map, Distinct, get, IterationOf}
use bewallet.Map.Laws.{In-get, get-In}
use bewallet.Elements.{Txid}
use bewallet.Model.{TransactionDetails, GetTransactionsOpt}
use bewallet.Store.{StoreMeta}
use bewallet.Wallet.Context.{WalletCtx, Orders}
use bewallet.Word.{u32_mod}
use bewallet.Wallet.History.{height_or_max, not_after, tx_details, list_tx}

abbrev pub Entry : Type 0
Entry = Txid × Option ℕ

not_after-total : (x y : Entry) → (not_after x y ≡ true) ⊎ (not_after y x ≡ true)
unfolding not_after
not_after-total (i, h) (j, k) = ground arith

not_after_trans :
    (x y z : Entry) → not_after x y ≡ true → not_after y z ≡ true → not_after x z ≡ true
unfolding not_after
not_after_trans (i, h) (j, k) (l, m) e f = ground arith

not_after-same : (x y : Entry) → not_after x y ≡ true → not_after y x ≡ true → x.0 ≡ y.0
unfolding not_after
not_after-same (i, h) (j, k) e f = ground arith

Distinct-NoDup : (m : Map Txid (Option ℕ)) → Distinct m → NoDup m
Distinct-NoDup [] d = tt
Distinct-NoDup ((i, h) ∷ m) d =
    (λ k. let found = get-In i h m d.1 k in let gone = d.0 in absurd cc, Distinct-NoDup m d.1)

-- The iteration visits the entries of the map.
In-order :
    (it : IterationOf Txid (Option ℕ)) (m : Map Txid (Option ℕ)) (e : Entry)
    → Distinct m
    → (In e (it.order m) → In e m) × (In e m → In e (it.order m))
In-order it m (i, h) d = (
  λ k. In-get i h m (sym (it.order_get m i d) ∙ get-In i h (it.order m) (it.order_distinct m d) k),
  λ k. In-get i h (it.order m) (it.order_get m i d ∙ get-In i h m d k),
)

newest : IterationOf Txid (Option ℕ) → Map Txid (Option ℕ) → List Entry
newest it m = sort_by not_after (it.order m)

newest_unique :
    (it jt : IterationOf Txid (Option ℕ)) (m : Map Txid (Option ℕ))
    → Distinct m
    → newest it m ≡ newest jt m
unfolding newest
newest_unique it jt m d =
    Sorted-unique not_after (newest it m) (newest jt m)
      (λ x y h k e f. same_entry x y (In-newest it x h) (In-newest it y k) (not_after-same x y e f))
      (sort_by-Sorted not_after not_after-total not_after_trans (it.order m))
      (sort_by-Sorted not_after not_after-total not_after_trans (jt.order m))
      (sort_by-NoDup not_after (it.order m) (Distinct-NoDup (it.order m) (it.order_distinct m d)))
      (sort_by-NoDup not_after (jt.order m) (Distinct-NoDup (jt.order m) (jt.order_distinct m d)))
      (λ e h. (In-sort_by not_after e (jt.order m)).0 ((In-order jt m e d).1 (In-newest it e h)))
      (λ e h. (In-sort_by not_after e (it.order m)).0 ((In-order it m e d).1 (In-newest jt e h)))
  where
    In-newest : (kt : IterationOf Txid (Option ℕ)) (e : Entry) → In e (newest kt m) → In e m
    In-newest kt e h = (In-order kt m e d).0 ((In-sort_by not_after e (kt.order m)).1 h)

    same_entry : (x y : Entry) → In x m → In y m → x.0 ≡ y.0 → x ≡ y
    same_entry (i, h) (j, k) p q e =
        let found : get i m ≡ some h = get-In i h m d p in
        let found' : get i m ≡ some k = subst (λ a. get a m ≡ some k) (sym e) (get-In j k m d q) in
        cc

take-nil : {A : Type 0} (i : ℕ) → take {A = A} i [] ≡ []
take-nil zero = refl
take-nil (suc i) = refl

take-drop : {A : Type 0} (n k : ℕ) (xs : List A) → take (n + k) xs ≡ take n xs ++ take k (drop n xs)
take-drop zero k xs = let e : 0 + k ≡ k = omega arith in ap (λ i. take i xs) e
take-drop (suc n) k [] =
    let e : suc n + k ≡ suc (n + k) = omega arith in ap (λ i. take i []) e ∙ sym (take-nil k)
take-drop (suc n) k (x ∷ xs) =
    let e : suc n + k ≡ suc (n + k) = omega arith in
    ap (λ i. take i (x ∷ xs)) e ∙ ap (λ l. x ∷ l) (take-drop n k xs)

drop-nil : {A : Type 0} (i : ℕ) → drop {A = A} i [] ≡ []
drop-nil zero = refl
drop-nil (suc i) = refl

drop-drop : {A : Type 0} (n k : ℕ) (xs : List A) → drop (n + k) xs ≡ drop k (drop n xs)
drop-drop zero k xs = let e : 0 + k ≡ k = omega arith in ap (λ i. drop i xs) e
drop-drop (suc n) k [] =
    let e : suc n + k ≡ suc (n + k) = omega arith in ap (λ i. drop i []) e ∙ sym (drop-nil k)
drop-drop (suc n) k (x ∷ xs) =
    let e : suc n + k ≡ suc (n + k) = omega arith in ap (λ i. drop i (x ∷ xs)) e ∙ drop-drop n k xs

traverse-append :
    {A B : Type 0} (f : A → Outcome B) (xs ys : List A) {us vs : List B}
    → traverse f xs ≡ ok us
    → traverse f ys ≡ ok vs
    → traverse f (xs ++ ys) ≡ ok (us ++ vs)
traverse-append f [] ys {us} {vs} h k =
    let e : [] ≡ us = ok_inj h in rw k (ap (λ l. ok (l ++ vs)) e)
traverse-append f (x ∷ xs) ys h k =
    let (w, ws, fx, run, same) = traverse-cons f x xs h in
    rw (fx, traverse-append f xs ys run k, same) refl

-- The map's own order.
as_stored : IterationOf Txid (Option ℕ)
as_stored = record { order = λ m. m; order_get = λ m k d. refl; order_distinct = λ m d. d }

-- `e` is listed before `f`: the unconfirmed before the confirmed, greater heights before smaller
-- ones, and at one height, or unconfirmed both, greater ids before smaller ones.
pub data Before : Entry → Entry → Type 0 where
  unconfirmed : (i j k : ℕ) → Before (i, none) (j, some k)
  both_unconfirmed : (i j : ℕ) → j ≤ i → Before (i, none) (j, none)
  higher : (i j h k : ℕ) → k < h → Before (i, some h) (j, some k)
  same_height : (i j h : ℕ) → j ≤ i → Before (i, some h) (j, some h)

abbrev pub InOrder : List Entry → Type 0
InOrder [] = Unit
InOrder (e ∷ es) = ((f : Entry) → In f es → Before e f) × InOrder es

-- The entries of the map, each once, the newest first.
pub record Newest (m : Map Txid (Option ℕ)) (es : List Entry) : Type 0 where
  pub in_order : InOrder es
  pub once : NoDup es
  pub listed : (e : Entry) → In e es → In e m
  pub complete : (e : Entry) → In e m → In e es

-- A height that a block can have: the greatest `u32` stands for none.
abbrev pub Height : Option ℕ → Type 0
Height none = Unit
Height (some h) = h < u32_mod - 1

not_after-Before : (e f : Entry) → Height e.1 → Height f.1 → not_after e f ≡ true → Before e f
unfolding not_after height_or_max
not_after-Before (i, none) (j, none) a b run = both_unconfirmed i j (ground arith)
not_after-Before (i, none) (j, some k) a b run = unconfirmed i j k
not_after-Before (i, some h) (j, none) a b run = absurd (ground arith)
not_after-Before (i, some h) (j, some k) a b run = elim (Bool-cases (nat_beq k h)) [
  | inl same ↦
      let e : h ≡ k = ground arith in
      let later : j ≤ i = ground arith in
      subst (λ g. Before (i, some h) (j, some g)) e (same_height i j h later)
  | inr other ↦ higher i j h k (ground arith)
]

Sorted-InOrder :
    (es : List Entry) → ((e : Entry) → In e es → Height e.1) → Sorted not_after es → InOrder es
Sorted-InOrder [] fits s = tt
Sorted-InOrder (e ∷ es) fits s = (
  λ f h. not_after-Before e f (fits e (inl refl)) (fits f (inr h)) (s.0 f h),
  Sorted-InOrder es (λ f h. fits f (inr h)) s.1,
)

module _ (w : WalletCtx) (s : StoreMeta) where
  list_tx-newest :
      Distinct s.cache.heights
      → (orders : Orders) (opt : GetTransactionsOpt)
      → list_tx w s orders opt
        ≡ traverse
            (tx_details w s)
            (take opt.count (drop opt.first (newest as_stored s.cache.heights)))
  unfolding list_tx newest as_stored
  list_tx-newest d orders opt =
      ap (λ es. traverse (tx_details w s) (take opt.count (drop opt.first es)))
        (newest_unique orders.heights as_stored s.cache.heights d)

  -- Where the heights are below the greatest `u32`, there is one list of the wallet's transactions,
  -- each once, the unconfirmed first, then by falling heights, and at one height, or unconfirmed, by
  -- falling ids, such that `list_tx` returns the details of the page that is asked for, whatever the
  -- order in which the map of heights is iterated.
  pub list_tx-Newest :
      Distinct s.cache.heights
      → ((e : Entry) → In e s.cache.heights → Height e.1)
      → (es : List Entry) × Newest s.cache.heights es
        × ((orders : Orders) (opt : GetTransactionsOpt)
            → list_tx w s orders opt
              ≡ traverse (tx_details w s) (take opt.count (drop opt.first es)))
  unfolding newest as_stored
  list_tx-Newest d fits =
      let m = s.cache.heights in
      let listed = λ (e : Entry) (h : In e (sort_by not_after m)). (In-sort_by not_after e m).1 h in
      (
        newest as_stored m,
        record {
          in_order =
              Sorted-InOrder (sort_by not_after m) (λ e h. fits e (listed e h))
                (sort_by-Sorted not_after not_after-total not_after_trans m);
          once = sort_by-NoDup not_after m (Distinct-NoDup m d);
          listed = listed;
          complete = λ e h. (In-sort_by not_after e m).0 h;
        },
        list_tx-newest d,
      )

  -- Two pages that follow each other, whatever the orders of iteration of the two calls, are one
  -- page of both counts.
  pub list_tx-pages :
      (orders orders' orders'' : Orders) (opt : GetTransactionsOpt) (first count count' : ℕ)
      (ds es : List TransactionDetails)
      → Distinct s.cache.heights
      → list_tx w s orders (record opt { first = first; count = count }) ≡ ok ds
      → list_tx w s orders' (record opt { first = first + count; count = count' }) ≡ ok es
      → list_tx w s orders'' (record opt { first = first; count = count + count' }) ≡ ok (ds ++ es)
  list_tx-pages orders orders' orders'' opt first count count' ds es d one two =
      let xs = newest as_stored s.cache.heights in
      let pages = list_tx-newest d in
      let details = tx_details w s in
      let one' : traverse details (take count (drop first xs)) ≡ ok ds =
        sym (pages orders (record opt { first = first; count = count })) ∙ one in
      let two' : traverse details (take count' (drop (first + count) xs)) ≡ ok es =
        sym (pages orders' (record opt { first = first + count; count = count' })) ∙ two in
      let split : take (count + count') (drop first xs)
          ≡ take count (drop first xs) ++ take count' (drop (first + count) xs) =
        take-drop count count' (drop first xs)
        ∙ ap (λ l. take count (drop first xs) ++ take count' l) (sym (drop-drop first count xs)) in
      pages orders'' (record opt { first = first; count = count + count' })
      ∙ ap (traverse details) split
      ∙ traverse-append details (take count (drop first xs)) (take count' (drop (first + count) xs))
          one' two'
