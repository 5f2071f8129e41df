-- ===== src/Util/Pmap/Laws.antt =====
-- What src/util/pmap.c promises of a map: after each operation, what every key is mapped to.
use tpaf.Prelude.{
  ℕ, ◌≡◌, ◌≢◌, refl, ap, sym, ◌∙◌, inl, inr, Bool, true, false, Option, none, some, [], ◌∷◌, ◌++◌,
  arith, if◌then◌else◌, ◌==◌, Bool-cases,
}
use tpaf.Util.Sequence
use tpaf.Util.Pmap.{Pmap, index_of, has_key, add, get, del, update}

module _ {ℓ} {V : Type ℓ} where
  -- The map read from the front, and the map without the first entry of a key.
  unfoldable pub find : Pmap V → ℕ → Option V
  find [] k = none
  find (e ∷ m) k = if e.key == k then some e.value else find m k

  drop_key : Pmap V → ℕ → Pmap V
  drop_key [] k = []
  drop_key (e ∷ m) k = if e.key == k then m else e ∷ drop_key m k

  abbrev pub is_some : Option V → Bool
  is_some none = false
  is_some (some v) = true

  -- No two entries have one key.
  abbrev pub IsFree : ℕ → Pmap V → Type 0
  IsFree k [] = Unit {0}
  IsFree k (e ∷ m) = (e.key ≢ k) × IsFree k m

  abbrev pub IsDistinct : Pmap V → Type 0
  IsDistinct [] = Unit {0}
  IsDistinct (e ∷ m) = IsFree e.key m × IsDistinct m

  pub get-find : (m : Pmap V) (k : ℕ) → get m k ≡ find m k
  unfolding get find index_of Sequence.index_of
  get-find [] k = refl
  get-find (e ∷ m) k = ground (arith, get-find m k)

  pub has_key-get : (m : Pmap V) (k : ℕ) → has_key m k ≡ is_some (get m k)
  unfolding has_key get index_of Sequence.index_of
  has_key-get [] k = refl
  has_key-get (e ∷ m) k = ground (arith, has_key-get m k)

  del-drop_key : (m : Pmap V) (k : ℕ) → is_some (get m k) ≡ true → del m k ≡ some (drop_key m k)
  unfolding del get drop_key index_of Sequence.index_of Sequence.delete_at
  del-drop_key [] k h = cc
  del-drop_key (e ∷ m) k h = ground (arith, del-drop_key m k)

  pub del-none : (m : Pmap V) (k : ℕ) → get m k ≡ none → del m k ≡ none
  unfolding del get index_of Sequence.index_of Sequence.delete_at
  del-none [] k h = refl
  del-none (e ∷ m) k h = ground (arith, del-none m k)

  IsFree-find : (m : Pmap V) (k : ℕ) → IsFree k m → find m k ≡ none
  unfolding find
  IsFree-find [] k f = refl
  IsFree-find (e ∷ m) k f = ground (arith, IsFree-find m k f.1)

  find-IsFree : (m : Pmap V) (k : ℕ) → find m k ≡ none → IsFree k m
  unfolding find
  find-IsFree [] k h = tt
  find-IsFree (e ∷ m) k h = ground (arith, find-IsFree m k)

  find-drop_key :
      (m : Pmap V) (k j : ℕ)
      → IsDistinct m
      → find (drop_key m k) j ≡ (if k == j then none else find m j)
  unfolding find drop_key
  find-drop_key [] k j d = ground arith
  find-drop_key (e ∷ m) k j d = ground (arith, find-drop_key m k j d.1, IsFree-find m k)

  find-append :
      (m : Pmap V) (k j : ℕ) (v : V)
      → find m k ≡ none
      → find (m ++ record { key = k; value = v } ∷ []) j ≡ (if k == j then some v else find m j)
  unfolding find
  find-append [] k j v h = ground arith
  find-append (e ∷ m) k j v h = ground (arith, find-append m k j v)

  find-update :
      (m : Pmap V) (k j : ℕ) (v : V)
      → is_some (find m k) ≡ true
      → find (update m k v) j ≡ (if k == j then some v else find m j)
  unfolding find update
  find-update [] k j v h = cc
  find-update (e ∷ m) k j v h = ground (arith, find-update m k j v)

  -- A key that is not there is added, with every other key left as it was.
  pub get-add :
      (m : Pmap V) (k : ℕ) (v : V)
      → get m k ≡ none
      → (n : Pmap V) × (add m k v ≡ some n)
        × ((j : ℕ) → get n j ≡ (if k == j then some v else get m j))
  unfolding add
  get-add m k v h = (
    m ++ record { key = k; value = v } ∷ [],
    ground (arith, has_key-get m k),
    λ j. rw (get-find _ j, get-find m j) (find-append m k j v (sym (get-find m k) ∙ h)),
  )

  -- Adding a key that is there fails an assertion.
  pub add-has_key : (m : Pmap V) (k : ℕ) (v w : V) → get m k ≡ some w → add m k v ≡ none
  unfolding add
  add-has_key m k v w h = ground (arith, has_key-get m k)

  -- In a map with no key twice, a key that is there is deleted, with every other key left as it
  -- was.
  pub get-del :
      (m : Pmap V) (k : ℕ) (v : V)
      → IsDistinct m
      → get m k ≡ some v
      → (n : Pmap V) × (del m k ≡ some n) × ((j : ℕ) → get n j ≡ (if k == j then none else get m j))
  get-del m k v d h = (
    drop_key m k,
    del-drop_key m k (rw h refl),
    λ j. rw (get-find _ j, get-find m j) (find-drop_key m k j d),
  )

  -- A write through the pointer of a key changes what that key is mapped to, and nothing else.
  pub get-update :
      (m : Pmap V) (k j : ℕ) (v w : V)
      → get m k ≡ some w
      → get (update m k v) j ≡ (if k == j then some v else get m j)
  get-update m k j v w h =
      rw (get-find _ j, get-find m j) (find-update m k j v (ap is_some (sym (get-find m k) ∙ h)))

  IsFree-append :
      (m : Pmap V) (k j : ℕ) (v : V)
      → IsFree j m
      → k ≢ j
      → IsFree j (m ++ record { key = k; value = v } ∷ [])
  IsFree-append [] k j v f h = (h, tt)
  IsFree-append (e ∷ m) k j v f h = (f.0, IsFree-append m k j v f.1 h)

  IsFree-drop_key : (m : Pmap V) (k j : ℕ) → IsFree j m → IsFree j (drop_key m k)
  unfolding drop_key
  IsFree-drop_key [] k j f = tt
  IsFree-drop_key (e ∷ m) k j f = ground (arith, IsFree-drop_key m k j f.1)

  IsFree-update : (m : Pmap V) (k j : ℕ) (v : V) → IsFree j m → IsFree j (update m k v)
  unfolding update
  IsFree-update [] k j v f = tt
  IsFree-update (e ∷ m) k j v f = ground (arith, IsFree-update m k j v f.1)

  append-IsDistinct :
      (m : Pmap V) (k : ℕ) (v : V)
      → IsFree k m
      → IsDistinct m
      → IsDistinct (m ++ record { key = k; value = v } ∷ [])
  append-IsDistinct [] k v f d = (tt, tt)
  append-IsDistinct (e ∷ m) k v f d =
      (IsFree-append m k e.key v d.0 (λ q. f.0 (sym q)), append-IsDistinct m k v f.1 d.1)

  -- The keys stay distinct.
  pub add-IsDistinct :
      (m n : Pmap V) (k : ℕ) (v : V) → add m k v ≡ some n → IsDistinct m → IsDistinct n
  unfolding add
  add-IsDistinct m n k v e d = elim (Bool-cases (has_key m k)) [
    | inl old ↦ absurd (ground arith)
    | inr new ↦
        let e' : m ++ record { key = k; value = v } ∷ [] ≡ n = ground arith in
        rw (← e') (
          append-IsDistinct m k v
            (find-IsFree m k (sym (get-find m k) ∙ ground (arith, has_key-get m k))) d)
  ]

  drop_key-IsDistinct : (m : Pmap V) (k : ℕ) → IsDistinct m → IsDistinct (drop_key m k)
  unfolding drop_key
  drop_key-IsDistinct [] k d = tt
  drop_key-IsDistinct (e ∷ m) k d =
      ground (arith, drop_key-IsDistinct m k d.1, IsFree-drop_key m k e.key d.0)

  pub del-IsDistinct : (m n : Pmap V) (k : ℕ) → del m k ≡ some n → IsDistinct m → IsDistinct n
  del-IsDistinct m n k e d = elim (Bool-cases (is_some (get m k))) [
    | inl old ↦
        let e' : drop_key m k ≡ n = cc (del-drop_key m k old) in
        rw (← e') (drop_key-IsDistinct m k d)
    | inr new ↦ absurd (cc (del-none m k (ground arith)))
  ]

  pub update-IsDistinct : (m : Pmap V) (k : ℕ) (v : V) → IsDistinct m → IsDistinct (update m k v)
  unfolding update
  update-IsDistinct [] k v d = tt
  update-IsDistinct (e ∷ m) k v d =
      ground (arith, update-IsDistinct m k v d.1, IsFree-update m k e.key v d.0)
