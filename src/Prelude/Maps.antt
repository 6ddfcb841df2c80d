-- ===== src/Prelude/Maps.antt =====
-- JavaScript's `Map` with text keys: entries in the order of insertion, a written key keeps its place.
use mathlib.Core.Path.{◌≡◌, refl, sym, ◌∙◌}
use mathlib.Core.Logic.{inl, inr}
use mathlib.Core.Bool.{Bool, false}
use mathlib.Core.Option
use mathlib.Core.Option.{Option, none, some}
use mathlib.Core.List.{List, [], ◌∷◌, Memᴰ}
use native.Mathlib.Omega.{arith}
use parallelplay.Prelude.Tests.{if◌then◌else◌, Bool-cases, Option-cases, is_some}
use parallelplay.Prelude.Lists.{All}
use parallelplay.Prelude.Texts.{Uuid, same, same_refl, same→eq, same_sym_false}

abbrev pub Map : Type 0 → Type 0
Map V = List (Uuid × V)

module _ {V : Type 0} where
  unfoldable pub get : Uuid → Map V → Option V
  get k [] = none
  get k ((j, v) ∷ m) = if same j k then some v else get k m

  unfoldable pub set : Uuid → V → Map V → Map V
  set k v [] = (k, v) ∷ []
  set k v ((j, w) ∷ m) = if same j k then (j, v) ∷ m else (j, w) ∷ set k v m

  abbrev pub has : Uuid → Map V → Bool
  has k m = is_some (get k m)

  abbrev pub values : Map V → List V
  values [] = []
  values ((k, v) ∷ m) = v ∷ values m

  pub get-set_self : (k : Uuid) (v : V) (m : Map V) → get k (set k v m) ≡ some v
  unfolding get set
  get-set_self k v [] = ground (arith, same_refl k)
  get-set_self k v ((j, w) ∷ m) = ground (arith, get-set_self k v m)

  pub get-set_other :
      (k j : Uuid) (v : V) (m : Map V) → same k j ≡ false → get j (set k v m) ≡ get j m
  unfolding get set
  get-set_other k j v [] h = ground arith
  get-set_other k j v ((i, w) ∷ m) h =
      ground (arith, get-set_other k j v m h, same→eq i k, same→eq i j, same_refl j)

  pub get-set :
      (k j : Uuid) (v : V) (m : Map V) → get j (set k v m) ≡ (if same k j then some v else get j m)
  get-set k j v m = elim (Bool-cases (same k j)) [
    | inl e ↦ rw (e, same→eq k j e) (get-set_self j v m)
    | inr e ↦ rw e (get-set_other k j v m e)
  ]

  -- `map.set(ident(v), f(v))` for the entry `v` of a key, which must be there (`required`).
  unfoldable pub amend : (V → Uuid) → Uuid → (V → V) → Map V → Option (Map V)
  amend ident k f m = elim (get k m) [ none ↦ none | some v ↦ some (set (ident v) (f v) m) ]

  -- Every entry is kept under its own identifier, and under no other.
  abbrev pub Keyed : (V → Uuid) → Map V → Type 0
  Keyed ident [] = Unit
  Keyed ident ((k, v) ∷ m) = (ident v ≡ k) × (get k m ≡ none) × Keyed ident m

  pub get-Keyed :
      (ident : V → Uuid) (k : Uuid) (v : V) (m : Map V)
      → Keyed ident m
      → get k m ≡ some v
      → ident v ≡ k
  unfolding get
  get-Keyed ident k v [] keyed h = cc
  get-Keyed ident k v ((j, w) ∷ m) keyed h =
      ground (arith, same→eq j k, get-Keyed ident k v m keyed.2)

  -- What holds of every entry that its identifier finds, holds of all the values.
  pub All-values {κ} :
      (ident : V → Uuid) (P : V → Type κ) (m : Map V)
      → Keyed ident m
      → ((v : V) → get (ident v) m ≡ some v → P v)
      → All P (values m)
  unfolding get
  All-values ident P [] keyed holds = tt
  All-values ident P ((k, v) ∷ m) keyed holds = (
    holds v (rw (keyed.0, same_refl k)),
    All-values ident P m keyed.2 λ w e. holds w (elim (Bool-cases (same k (ident w))) [
      | inl hit ↦
          let missing : get (ident w) m ≡ none = rw (← same→eq k (ident w) hit) keyed.1 in
          cc (missing, e)
      | inr miss ↦ rw miss e
    ]),
  )

  amend-inv :
      (ident : V → Uuid) (k : Uuid) (f : V → V) (m m' : Map V)
      → amend ident k f m ≡ some m'
      → (v : V) × (get k m ≡ some v) × (m' ≡ set (ident v) (f v) m)
  unfolding amend
  amend-inv ident k f m m' h = elim (Option-cases (get k m)) [
    | inl e ↦ ground (arith, e, h)
    | inr (v, e) ↦ (v, e, ground (arith, e, h))
  ]

  -- What an amended map answers, where each entry stands under its own identifier.
  pub get-amend :
      (ident : V → Uuid) (k : Uuid) (f : V → V) (m m' : Map V) (i : Uuid)
      → Keyed ident m
      → amend ident k f m ≡ some m'
      → get i m' ≡ (if same k i then Option.map f (get i m) else get i m)
  get-amend ident k f m m' i keyed h =
      let (v, e, q) = amend-inv ident k f m m' h in
      elim (Bool-cases (same k i)) [
        | inl hit ↦
            rw (hit, q, get-Keyed ident k v m keyed e, ← same→eq k i hit, e)
              (get-set_self k (f v) m)
        | inr miss ↦ rw (miss, q, get-Keyed ident k v m keyed e) (get-set_other k i (f v) m miss)
      ]

  set_at-Keyed :
      (ident : V → Uuid) (k : Uuid) (v : V) (m : Map V)
      → ident v ≡ k
      → Keyed ident m
      → Keyed ident (set k v m)
  unfolding set get
  set_at-Keyed ident k v [] e keyed = (e, refl, tt)
  set_at-Keyed ident k v ((j, w) ∷ m) e keyed = elim (Bool-cases (same j k)) [
    | inl hit ↦ rw hit (e ∙ sym (same→eq j k hit), keyed.1, keyed.2)
    | inr miss ↦ rw miss (
      keyed.0,
      get-set_other k j v m (same_sym_false j k miss) ∙ keyed.1,
      set_at-Keyed ident k v m e keyed.2,
    )
  ]

  pub set-Keyed :
      (ident : V → Uuid) (v : V) (m : Map V) → Keyed ident m → Keyed ident (set (ident v) v m)
  set-Keyed ident v m keyed = set_at-Keyed ident (ident v) v m refl keyed

  pub amend-Keyed :
      (ident : V → Uuid) (k : Uuid) (f : V → V) (m m' : Map V)
      → ((v : V) → ident (f v) ≡ ident v)
      → Keyed ident m
      → amend ident k f m ≡ some m'
      → Keyed ident m'
  amend-Keyed ident k f m m' kept keyed h =
      let (v, e, q) = amend-inv ident k f m m' h in rw (q, ← kept v) (set-Keyed ident (f v) m keyed)

  -- An amended map held the key.
  pub amend_found :
      (ident : V → Uuid) (k : Uuid) (f : V → V) (m m' : Map V)
      → amend ident k f m ≡ some m'
      → (v : V) × (get k m ≡ some v)
  amend_found ident k f m m' h = let (v, e, q) = amend-inv ident k f m m' h in (v, e)

  pub mem-values : (k : Uuid) (v : V) (m : Map V) → get k m ≡ some v → Memᴰ v (values m)
  unfolding get
  mem-values k v [] h = cc
  mem-values k v ((j, w) ∷ m) h = elim (Bool-cases (same j k)) [
    | inl hit ↦ Memᴰ.head (ground (arith, hit, h))
    | inr miss ↦ Memᴰ.tail (mem-values k v m (rw miss at h))
  ]

  -- `map.delete(k)`
  unfoldable pub remove : Uuid → Map V → Map V
  remove k [] = []
  remove k ((j, b) ∷ m) = if same j k then remove k m else (j, b) ∷ remove k m

  pub get-remove_other : (k j : Uuid) (m : Map V) → same j k ≡ false → get j (remove k m) ≡ get j m
  unfolding get remove
  get-remove_other k j [] h = refl
  get-remove_other k j ((i, b) ∷ m) h =
      let rest = get-remove_other k j m h in
      elim (Bool-cases (same i k)) [
        | inl hit ↦
            let own : i ≡ k = same→eq i k hit in
            let miss : same i j ≡ false = rw own (elim (Bool-cases (same k j)) [
              | inl e ↦ absurd (cc (rw (same→eq k j e, same_refl j) at h))
              | inr e ↦ e
            ]) in
            rw (hit, miss) rest
        | inr other ↦ rw other (ground arith)
      ]

  pub get-removed : (k : Uuid) (m : Map V) → get k (remove k m) ≡ none
  unfolding get remove
  get-removed k [] = refl
  get-removed k ((j, b) ∷ m) = ground (arith, get-removed k m)

  -- What is found after a deletion was there before it.
  pub get-remove : (k j : Uuid) (m : Map V) (v : V) → get j (remove k m) ≡ some v → get j m ≡ some v
  get-remove k j m v h = elim (Bool-cases (same j k)) [
    | inl hit ↦
        let gone : get j (remove k m) ≡ none = rw (same→eq j k hit) (get-removed k m) in
        absurd (cc (gone, h))
    | inr miss ↦ sym (get-remove_other k j m miss) ∙ h
  ]
