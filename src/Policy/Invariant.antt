-- ===== src/Policy/Invariant.antt =====
-- What every entry of the map keeps to, and the lookup in a swept map.
use tos_pool.Prelude.{
  ℕ, ◌≤◌, ◌<◌, ◌≡◌, refl, ◌∙◌, Option, none, some, List, [], ◌∷◌, arith, Bool-cases, inl, inr,
  if◌then◌else◌,
}
use tos_pool.Prelude.Maps.{
  Bytes, bytes_Eq, bytes_eq, bytes_eq_iff, lookup, insert, lookup-insert_ne,
}
use tos_pool.Policy.State.{Config, IpStats}
use tos_pool.Policy.Tables.{sweep, expire_ban, is_stale}

-- No IP has two entries.
abbrev pub Distinct {ℓ} : {V : Type ℓ} → List (Bytes × V) → Type ℓ
Distinct [] = Unit
Distinct ((k, v) ∷ m) = (lookup k m ≡ none) × Distinct m

pub insert-Distinct {ℓ} :
    {V : Type ℓ} (k : Bytes) (v : V) (m : List (Bytes × V)) → Distinct m → Distinct (insert k v m)
insert-Distinct k v [] d = (refl, tt)
insert-Distinct k v ((j, w) ∷ m) d = elim (Bool-cases (bytes_eq k j)) [
  | inl same ↦ rw same (rw ((bytes_eq_iff k j).0 same) d)
  | inr other ↦ rw other (
    rw (lookup-insert_ne j k v m (λ p. cc ((bytes_eq_iff k j).1 (sym' p)))) d.0,
    insert-Distinct k v m d.1,
  )
]
  where
    sym' : {a b : Bytes} → a ≡ b → b ≡ a
    sym' p = cc

-- The flag is 0 or 1, and a ban has a time.
abbrev pub Sound : IpStats → Type 0
Sound st = (st.banned ≤ 1) × (st.banned ≡ 1 → 0 < st.banned_at)

abbrev pub AllSound : List (Bytes × IpStats) → Type 0
AllSound [] = Unit {0}
AllSound ((k, st) ∷ m) = Sound st × AllSound m

pub insert-AllSound :
    (k : Bytes) (st : IpStats) (m : List (Bytes × IpStats))
    → Sound st
    → AllSound m
    → AllSound (insert k st m)
insert-AllSound k st [] h a = (h, tt)
insert-AllSound k st ((j, w) ∷ m) h a = elim (Bool-cases (bytes_eq k j)) [
  | inl same ↦ rw same (h, a.1)
  | inr other ↦ rw other (a.0, insert-AllSound k st m h a.1)
]

pub lookup-Sound :
    (k : Bytes) (st : IpStats) (m : List (Bytes × IpStats))
    → AllSound m
    → lookup k m ≡ some st
    → Sound st
lookup-Sound k st [] a e = cc
lookup-Sound k st ((j, w) ∷ m) a e = elim (Bool-cases (bytes_eq k j)) [
  | inl same ↦ rw (← some-inj (rw same at e)) a.0
  | inr other ↦ lookup-Sound k st m a.1 (rw other at e)
]
  where
    some-inj : {x y : IpStats} → some x ≡ some y → x ≡ y
    some-inj p = cc

module _ {F : Type 0} (cfg : Config F) (now : ℕ) where
  -- What the sweep makes of one entry.
  abbrev pub swept : Option IpStats → Option IpStats
  swept none = none
  swept (some st) =
      if is_stale cfg now (expire_ban cfg now st) then none else some (expire_ban cfg now st)

  pub lookup-sweep :
      (ip : Bytes) (m : List (Bytes × IpStats))
      → Distinct m
      → lookup ip (sweep cfg now m) ≡ swept (lookup ip m)
  unfolding sweep
  lookup-sweep ip [] d = refl
  lookup-sweep ip ((j, st) ∷ m) d = elim (Bool-cases (bytes_eq ip j)) [
    | inl same ↦ elim (Bool-cases (is_stale cfg now (expire_ban cfg now st))) [
      | inl old ↦
          rw (same, old) (lookup-sweep ip m d.1 ∙ rw (((bytes_eq_iff ip j).0 same), d.0) refl)
      | inr new ↦ rw (same, new) (rw same refl)
    ]
    | inr other ↦ elim (Bool-cases (is_stale cfg now (expire_ban cfg now st))) [
      | inl old ↦ rw (other, old) (lookup-sweep ip m d.1)
      | inr new ↦ rw (other, new) (rw other (lookup-sweep ip m d.1))
    ]
  ]

  pub sweep-Distinct : (m : List (Bytes × IpStats)) → Distinct m → Distinct (sweep cfg now m)
  unfolding sweep
  sweep-Distinct [] d = tt
  sweep-Distinct ((j, st) ∷ m) d = elim (Bool-cases (is_stale cfg now (expire_ban cfg now st))) [
    | inl old ↦ rw old (sweep-Distinct m d.1)
    | inr new ↦ rw new (lookup-sweep j m d.1 ∙ rw d.0 refl, sweep-Distinct m d.1)
  ]

  expire_ban-Sound : (st : IpStats) → Sound st → Sound (expire_ban cfg now st)
  expire_ban-Sound st h = ground arith

  pub sweep-AllSound : (m : List (Bytes × IpStats)) → AllSound m → AllSound (sweep cfg now m)
  unfolding sweep
  sweep-AllSound [] a = tt
  sweep-AllSound ((j, st) ∷ m) a = elim (Bool-cases (is_stale cfg now (expire_ban cfg now st))) [
    | inl old ↦ rw old (sweep-AllSound m a.1)
    | inr new ↦ rw new (expire_ban-Sound st a.0, sweep-AllSound m a.1)
  ]
