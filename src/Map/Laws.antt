-- ===== src/Map/Laws.antt =====
-- Laws of the maps of Map.antt, in `if` form.
use bewallet.Common.{
  ◌≡◌, refl, true, false, none, some, [], ◌∷◌, arith, if◌then◌else◌, PartialEq, ◌==◌, List, nat_eq,
  map, is_some, ◌||◌, ℕ, In, Bool-cases, inl, inr, nat_beq, nat_beq_iff, subst,
}
use bewallet.Map.{Map, get, insert, remove, extend, Distinct, contains, set_insert, set_remove}

module _ {K : Type 0} ⦃e : PartialEq K⦄ {V : Type 0} where
  pub get-insert :
      (k j : K) (v : V) (m : Map K V) → get j (insert k v m) ≡ (if k == j then some v else get j m)
  unfolding get insert
  get-insert k j v [] = refl
  get-insert k j v ((i, w) ∷ m) =
      ground (arith, e.eq_law k j, e.eq_law i k, e.eq_law i j, get-insert k j v m)

  pub get-remove : (k j : K) (m : Map K V) → get j (remove k m) ≡ (if k == j then none else get j m)
  unfolding get remove
  get-remove k j [] = ground arith
  get-remove k j ((i, w) ∷ m) =
      ground (arith, e.eq_law k j, e.eq_law i k, e.eq_law i j, get-remove k j m)

  pub insert-Distinct : (k : K) (v : V) (m : Map K V) → Distinct m → Distinct (insert k v m)
  unfolding insert get
  insert-Distinct k v [] d = (refl, tt)
  insert-Distinct k v ((i, w) ∷ m) d =
      ground (arith, e.eq_law i k, e.eq_law k i, get-insert k i v m, insert-Distinct k v m d.1)

module _ {K : Type 0} ⦃e : PartialEq K⦄ where
  pub contains-set_insert :
      (k j : K) (s : List K) → contains j (set_insert k s) ≡ (if k == j then true else contains j s)
  unfolding contains set_insert
  contains-set_insert k j s = ground (arith, e.eq_law k j)

  pub contains-set_remove :
      (k j : K) (s : List K)
      → contains j (set_remove k s) ≡ (if k == j then false else contains j s)
  unfolding contains set_remove
  contains-set_remove k j [] = ground arith
  contains-set_remove k j (i ∷ s) =
      ground (arith, e.eq_law k j, e.eq_law i k, e.eq_law i j, contains-set_remove k j s)

module _ {K : Type 0} ⦃e : PartialEq K⦄ {V : Type 0} where
  -- The keys that have an entry.
  pub contains-keys :
      (k : K) (m : Map K V) → contains k (map (λ (x : K × V). x.0) m) ≡ is_some (get k m)
  unfolding contains get
  contains-keys k [] = refl
  contains-keys k ((j, v) ∷ m) = ground (arith, contains-keys k m)

  pub get-extend-some :
      (k : K) (m : Map K V) (es : List (K × V))
      → is_some (get k (extend m es)) ≡ (is_some (get k m) || is_some (get k es))
  unfolding extend get
  get-extend-some k m [] = ground arith
  get-extend-some k m ((j, v) ∷ es) =
      ground (arith, get-extend-some k (insert j v m) es, get-insert j k v m)

  pub extend-Distinct : (m : Map K V) (es : List (K × V)) → Distinct m → Distinct (extend m es)
  unfolding extend
  extend-Distinct m [] d = d
  extend-Distinct m ((j, v) ∷ es) d = extend-Distinct (insert j v m) es (insert-Distinct j v m d)

pub In-get : {V : Type 0} (k : ℕ) (v : V) (m : Map ℕ V) → get k m ≡ some v → In (k, v) m
unfolding get
In-get k v [] h = cc
In-get k v ((j, w) ∷ m) h = elim (Bool-cases (nat_beq j k)) [
  | inl same ↦
      let j_k : j ≡ k = (nat_beq_iff j k).0 same in
      let w_v : w ≡ v = ground (arith, h, same) in inl cc
  | inr differ ↦ inr (In-get k v m (ground (arith, h, differ)))
]

pub get-In :
    {V : Type 0} (k : ℕ) (v : V) (m : Map ℕ V) → Distinct m → In (k, v) m → get k m ≡ some v
unfolding get
get-In k v [] d h = absurd h
get-In k v ((j, w) ∷ m) d (inl same) =
    let j_k : j ≡ k = cc in let w_v : w ≡ v = cc in rw ((nat_beq_iff j k).1 j_k, w_v) refl
get-In k v ((j, w) ∷ m) d (inr h) = elim (Bool-cases (nat_beq j k)) [
  | inl same ↦
      let j_k : j ≡ k = (nat_beq_iff j k).0 same in
      let found = get-In k v m d.1 h in
      let gone : get k m ≡ none = subst (λ i. get i m ≡ none) j_k d.0 in absurd cc
  | inr differ ↦ rw differ (get-In k v m d.1 h)
]
