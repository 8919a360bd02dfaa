-- ===== src/Base/Dictionary.antt =====
-- `std::unordered_map` as an association list and `std::unordered_set` as a list, both without
-- repetition. No theorem depends on the order in which they are walked.
use mathlib.Core.Path.{◌≡◌, refl, sym, ◌∙◌, subst}
use mathlib.Core.Bool.{Bool, Bool-set, true, false, ◌&&◌, ◌||◌}
use mathlib.Core.List.{List, [], ◌∷◌, ◌++◌, Perm, Permᴰ}
use mathlib.Core.Logic.{inl, inr, ∥∥₁_elim}
use mathlib.Core.Option.{Option, none, some}
use native.Mathlib.Omega.{arith}
use mind_trace.Base.Lists.{any, any-perm}
use mind_trace.Base.Tests.{if◌then◌else◌, Bool-cases}
use mind_trace.Base.Eq.{Eq}

module _ {ℓ} {A : Type ℓ} ⦃e : Eq A⦄ where
  -- `set.count(a)`.
  abbrev pub count : A → List A → Bool
  count a [] = false
  count a (x ∷ xs) = e.beq x a || count a xs

  unfoldable pub insert : A → List A → List A
  insert a xs = if count a xs then xs else xs ++ a ∷ []

  -- `set.insert(first, last)`.
  unfoldable pub insert_all : List A → List A → List A
  unfolding insert
  insert_all [] s = s
  insert_all (x ∷ xs) s = insert_all xs (insert x s)

  abbrev pub Distinct : List A → Type 0
  Distinct [] = Unit
  Distinct (x ∷ xs) = (count x xs ≡ false) × Distinct xs

  beq_trans : (a x b : A) → e.beq x a ≡ true → e.beq x b ≡ e.beq a b
  beq_trans a x b h = rw ((e.beq_iff x a).0 h)

  count_last : (a b : A) (xs : List A) → count b (xs ++ a ∷ []) ≡ (count b xs || e.beq a b)
  count_last a b [] = ground arith
  count_last a b (x ∷ xs) = ground (arith, count_last a b xs)

  count_absorbs :
      (a b : A) (xs : List A) → count a xs ≡ true → (count b xs || e.beq a b) ≡ count b xs
  count_absorbs a b [] h = cc
  count_absorbs a b (x ∷ xs) h = ground (arith, beq_trans a x b, count_absorbs a b xs)

  pub count-insert : (a b : A) (xs : List A) → count b (insert a xs) ≡ (count b xs || e.beq a b)
  unfolding insert
  count-insert a b xs = elim (Bool-cases (count a xs)) [
    | inl h ↦ rw h (sym (count_absorbs a b xs h))
    | inr h ↦ rw h (count_last a b xs)
  ]

  pub count-insert_all :
      (xs s : List A) (b : A) → count b (insert_all xs s) ≡ (count b s || count b xs)
  unfolding insert_all
  count-insert_all [] s b = ground arith
  count-insert_all (x ∷ xs) s b =
      ground (arith, count-insert_all xs (insert x s) b, count-insert x b s)

-- A test does not tell equal keys apart.
test_of_key {ℓ} : {K : Type ℓ} ⦃e : Eq K⦄ (p : K → Bool) (j k : K) → e.beq j k ≡ true → p j ≡ p k
test_of_key ⦃e⦄ p j k h = rw ((e.beq_iff j k).0 h)

-- A map from keys to sets.
module _ {ℓ κ} {K : Type ℓ} {V : Type κ} ⦃e : Eq K⦄ ⦃d : Eq V⦄ where
  -- `map[k].insert(v)`.
  unfoldable pub add_at : K → V → List (K × List V) → List (K × List V)
  add_at k v [] = (k, insert v []) ∷ []
  add_at k v ((j, s) ∷ m) = if e.beq j k then (j, insert v s) ∷ m else (j, s) ∷ add_at k v m

  -- `map.find(k)`.
  unfoldable pub find : K → List (K × List V) → Option (List V)
  find k [] = none
  find k ((j, s) ∷ m) = if e.beq j k then some s else find k m

  -- `for (auto& [k, s] : map) if (p(k)) out.insert(s.begin(), s.end());`
  unfoldable pub gather : (K → Bool) → List (K × List V) → List V → List V
  gather p [] out = out
  gather p ((k, s) ∷ m) out = gather p m (if p k then insert_all s out else out)

  -- Some key that passes the test has `v` in its set.
  abbrev pub hits : (K → Bool) → List (K × List V) → V → Bool
  hits p [] v = false
  hits p ((k, s) ∷ m) v = (p k && count v s) || hits p m v

  abbrev pub keys : List (K × List V) → List K
  keys [] = []
  keys ((k, s) ∷ m) = k ∷ keys m

  pub hits-add_at :
      (p : K → Bool) (k : K) (v w : V) (m : List (K × List V))
      → hits p (add_at k v m) w ≡ (hits p m w || (p k && d.beq v w))
  unfolding add_at
  hits-add_at p k v w [] = ground (arith, count-insert v w [])
  hits-add_at p k v w ((j, s) ∷ m) =
      ground (arith, count-insert v w s, test_of_key p j k, hits-add_at p k v w m)

  pub count-gather :
      (p : K → Bool) (m : List (K × List V)) (out : List V) (w : V)
      → count w (gather p m out) ≡ (count w out || hits p m w)
  unfolding gather
  count-gather p [] out w = ground arith
  count-gather p ((k, s) ∷ m) out w =
      ground (
        arith,
        count-gather p m (if p k then insert_all s out else out) w,
        count-insert_all s out w,
      )

  -- What `find` returns is what passes the test for that very key.
  pub count-find :
      (k : K) (m : List (K × List V)) (s : List V) (p : K → Bool) (w : V)
      → p k ≡ true
      → find k m ≡ some s
      → count w s ≡ true
      → hits p m w ≡ true
  unfolding find
  count-find k [] s p w h f c = cc
  count-find k ((j, t) ∷ m) s p w h f c = ground (arith, test_of_key p j k, count-find k m s p w h)

  keys-found :
      (k : K) (v : V) (m : List (K × List V))
      → count k (keys m) ≡ true
      → keys (add_at k v m) ≡ keys m
  unfolding add_at
  keys-found k v [] h = cc
  keys-found k v ((j, s) ∷ m) h = ground (arith, keys-found k v m)

  keys-new :
      (k : K) (v : V) (m : List (K × List V))
      → count k (keys m) ≡ false
      → keys (add_at k v m) ≡ keys m ++ k ∷ []
  unfolding add_at
  keys-new k v [] h = refl
  keys-new k v ((j, s) ∷ m) h = ground (arith, keys-new k v m)

  -- The keys are a set that grows by `k`.
  pub keys-add_at :
      (k : K) (v : V) (m : List (K × List V)) → keys (add_at k v m) ≡ insert k (keys m)
  unfolding insert
  keys-add_at k v m = elim (Bool-cases (count k (keys m))) [
    | inl h ↦ rw h (keys-found k v m h)
    | inr h ↦ rw h (keys-new k v m h)
  ]

module _ {ℓ} {A : Type ℓ} ⦃e : Eq A⦄ where
  Distinct-last : (a : A) (xs : List A) → count a xs ≡ false → Distinct xs → Distinct (xs ++ a ∷ [])
  Distinct-last a [] h s = (refl, tt)
  Distinct-last a (x ∷ xs) h (k, s) = (
    ground (arith, count_last a x xs, e.beq_iff x a, e.beq_iff a x),
    Distinct-last a xs (ground arith) s,
  )

  pub Distinct-insert : (a : A) (xs : List A) → Distinct xs → Distinct (insert a xs)
  unfolding insert
  Distinct-insert a xs s = elim (Bool-cases (count a xs)) [
    | inl h ↦ rw h s
    | inr h ↦ rw h (Distinct-last a xs h s)
  ]

-- What `find` returns, `nullopt` read as the empty set.
abbrev pub found {ℓ} : {V : Type ℓ} → Option (List V) → List V
found none = []
found (some s) = s

module _ {ℓ κ} {K : Type ℓ} {V : Type κ} ⦃e : Eq K⦄ ⦃d : Eq V⦄ where
  pub Distinct-keys-add_at :
      (k : K) (v : V) (m : List (K × List V)) → Distinct (keys m) → Distinct (keys (add_at k v m))
  Distinct-keys-add_at k v m s = rw (keys-add_at k v m) (Distinct-insert k (keys m) s)

  pub hits_or :
      (p q : K → Bool) (m : List (K × List V)) (v : V)
      → hits (λ k. p k || q k) m v ≡ (hits p m v || hits q m v)
  hits_or p q [] v = refl
  hits_or p q ((k, s) ∷ m) v = ground (arith, hits_or p q m v)

  pub hits_never : (m : List (K × List V)) (v : V) → hits (λ k. false) m v ≡ false
  hits_never [] v = refl
  hits_never ((k, s) ∷ m) v = hits_never m v

  hits_absent :
      (k : K) (m : List (K × List V)) (v : V)
      → count k (keys m) ≡ false
      → hits (λ j. e.beq j k) m v ≡ false
  hits_absent k [] v h = refl
  hits_absent k ((j, s) ∷ m) v h = ground (arith, hits_absent k m v)

  -- In a map with distinct keys, `find` gives all that the key holds.
  pub count-found :
      (k : K) (m : List (K × List V)) (v : V)
      → Distinct (keys m)
      → count v (found (find k m)) ≡ hits (λ j. e.beq j k) m v
  unfolding find
  count-found k [] v s = refl
  count-found k ((j, t) ∷ m) v (h, s) = elim (Bool-cases (e.beq j k)) [
    | inl y ↦ rw (y, hits_absent k m v (rw ((e.beq_iff j k).0 y) at h)) (ground arith)
    | inr n ↦ rw n (count-found k m v s)
  ]

module _ {ℓ} {A : Type ℓ} ⦃e : Eq A⦄ where
  count-any : (a : A) (xs : List A) → count a xs ≡ any (λ x. e.beq x a) xs
  count-any a [] = refl
  count-any a (x ∷ xs) = ground (arith, count-any a xs)

  pub count-perm : (a : A) {xs ys : List A} → Perm xs ys → count a xs ≡ count a ys
  count-perm a {xs} {ys} h = count-any a xs ∙ any-perm (λ x. e.beq x a) h ∙ sym (count-any a ys)

  Distinct-prop : (xs : List A) → IsProp (Distinct xs)
  Distinct-prop [] = hlevel
  Distinct-prop (x ∷ xs) = λ s t i. (Bool-set _ _ s.0 t.0 i, Distinct-prop xs s.1 t.1 i)

  swapped :
      (a b : A) (l : List A)
      → (e.beq b a || count a l) ≡ false
      → count b l ≡ false
      → ((e.beq a b || count b l) ≡ false) × (count a l ≡ false)
  swapped a b l h k = ground (arith, e.beq_iff a b, e.beq_iff b a)

  Distinct-permᴰ : {xs ys : List A} → Permᴰ xs ys → Distinct xs → Distinct ys
  Distinct-permᴰ Permᴰ.nil h = h
  Distinct-permᴰ (Permᴰ.cons {a = a} {l₂ = ys} p d) (h, s) =
      (subst (λ b. count b ys ≡ false) p (sym (count-perm a ∣ d ∣₁) ∙ h), Distinct-permᴰ d s)
  Distinct-permᴰ (Permᴰ.swap {a = a} {b = b} {b' = b'} {l = l} p q) (h, (k, s)) =
      let (x, y) = swapped a b l h k in
      subst (λ c. ((e.beq b' c || count c l) ≡ false) × ((count b' l ≡ false) × Distinct l)) q
        (subst (λ c. ((e.beq c b || count b l) ≡ false) × ((count c l ≡ false) × Distinct l)) p
          (x, (y, s)))
  Distinct-permᴰ (Permᴰ.trans c d) h = Distinct-permᴰ d (Distinct-permᴰ c h)

  pub Distinct-perm : {xs ys : List A} → Perm xs ys → Distinct xs → Distinct ys
  Distinct-perm {xs} {ys} h s = ∥∥₁_elim h (Distinct-prop ys) (λ d. Distinct-permᴰ d s)
