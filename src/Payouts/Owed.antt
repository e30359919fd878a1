-- ===== src/Payouts/Owed.antt =====
-- Whom a payout lists (GetMinersWithBalance, internal/storage/redis.go).
use mathlib.Core.Path.{subst}
use mathlib.Core.List.{append_assoc}
use tos_pool.Prelude.{
  ℕ, ◌≡◌, refl, sym, ap, ◌∙◌, Bool, true, false, Option, none, some, List, [], ◌∷◌, ◌++◌, map, leb,
  if◌then◌else◌, Bool-cases, inl, inr,
}
use tos_pool.Prelude.Maps.{Bytes, codes, bytes_eq, bytes_Eq, bytes_eq_iff, member, lookup, beq_self}
use tos_pool.Store.Data.{Codec, key_miner}
use tos_pool.Store.Batches.{Distinct}
use tos_pool.Payouts.Batch.{Miner}
use tos_pool.Payouts.Loops.{amounts}
use tos_pool.Payouts.Listing.{
  contains, get_miner, with_balance, balance_field, from_key, from_keys, append_page,
  get_miners_with_balance,
}

-- The keys of all the pages.
abbrev pub keys_of : List (List Bytes) → List Bytes
keys_of [] = []
keys_of (keys ∷ pages) = keys ++ keys_of pages

abbrev pub AllDistinct : List Bytes → Type 0
AllDistinct [] = Unit {0}
AllDistinct (a ∷ xs) = (member a xs ≡ false) × AllDistinct xs

module _ (c : Codec) (fields : Bytes → Option (List (Bytes × Bytes))) (threshold : ℕ) where
  abbrev pub due_of : Option (List (Bytes × Bytes)) → Option ℕ
  due_of none = none
  due_of (some []) = none
  due_of (some (x ∷ fs)) =
      let balance = balance_field c (lookup (codes "balance") (x ∷ fs)) in
      if leb threshold balance then some balance else none

  -- What is owed to an address: its balance, from the threshold on.
  abbrev pub due : Bytes → Option ℕ
  due a = if contains (key_miner a) (codes ":workers") then none else due_of (fields (key_miner a))

  abbrev entry : Bytes → Option ℕ → List (Bytes × ℕ)
  entry a none = []
  entry a (some n) = (a, n) ∷ []

  amounts-with_balance :
      (a : Bytes) (o : Option (List (Bytes × Bytes)))
      → amounts (with_balance threshold (get_miner c a o)) ≡ entry a (due_of o)
  amounts-with_balance a none = refl
  amounts-with_balance a (some []) = refl
  amounts-with_balance a (some (x ∷ fs)) =
      split (leb threshold (balance_field c (lookup (codes "balance") (x ∷ fs))))
    where
      m : Miner
      m = record { address = a; balance = balance_field c (lookup (codes "balance") (x ∷ fs)) }

      split :
          (t : Bool)
          → amounts (if t then m ∷ [] else []) ≡ entry a (if t then some m.balance else none)
      split true = refl
      split false = refl

  amounts-from_key :
      (a : Bytes) → amounts (from_key c fields threshold (key_miner a)) ≡ entry a (due a)
  amounts-from_key a = split (contains (key_miner a) (codes ":workers"))
    where
      split :
          (t : Bool)
          → amounts
              (if t then [] else with_balance threshold (get_miner c a (fields (key_miner a))))
            ≡ entry a (if t then none else due_of (fields (key_miner a)))
      split true = refl
      split false = amounts-with_balance a (fields (key_miner a))

  amounts-append : (xs ys : List Miner) → amounts (xs ++ ys) ≡ amounts xs ++ amounts ys
  amounts-append [] ys = refl
  amounts-append (x ∷ xs) ys = ap (λ r. (x.address, x.balance) ∷ r) (amounts-append xs ys)

  lookup-entry_self :
      (a : Bytes) (o : Option ℕ) (known : Bool) (rest : List (Bytes × ℕ))
      → lookup a rest ≡ (if known then o else none)
      → lookup a (entry a o ++ rest) ≡ o
  lookup-entry_self a none true rest h = h
  lookup-entry_self a none false rest h = h
  lookup-entry_self a (some n) known rest h =
      let same : bytes_eq a a ≡ true = beq_self a in rw same refl

  lookup-entry_ne :
      (a b : Bytes) (o : Option ℕ) (rest : List (Bytes × ℕ))
      → bytes_eq a b ≡ false
      → lookup a (entry b o ++ rest) ≡ lookup a rest
  lookup-entry_ne a b none rest h = refl
  lookup-entry_ne a b (some n) rest h = rw h refl

  amounts-keys :
      (b : Bytes) (xs : List Bytes)
      → amounts (from_keys c fields threshold (map key_miner (b ∷ xs)))
        ≡ entry b (due b) ++ amounts (from_keys c fields threshold (map key_miner xs))
  amounts-keys b xs =
      amounts-append (from_key c fields threshold (key_miner b))
        (from_keys c fields threshold (map key_miner xs))
      ∙ ap (λ l. l ++ amounts (from_keys c fields threshold (map key_miner xs)))
          (amounts-from_key b)

  lookup-from_keys :
      (a : Bytes) (xs : List Bytes)
      → lookup a (amounts (from_keys c fields threshold (map key_miner xs)))
        ≡ (if member a xs then due a else none)
  lookup-from_keys a [] = refl
  lookup-from_keys a (b ∷ xs) =
      let rest = amounts (from_keys c fields threshold (map key_miner xs)) in
      let h = lookup-from_keys a xs in
      ap (lookup a) (amounts-keys b xs) ∙ elim (Bool-cases (bytes_eq a b)) [
        | inl e ↦
            let same = (bytes_eq_iff a b).0 e in
            ap (λ x. lookup a (entry x (due x) ++ rest)) (sym same)
            ∙ lookup-entry_self a (due a) (member a xs) rest h
            ∙ (rw e refl)
        | inr e ↦ lookup-entry_ne a b (due b) rest e ∙ h ∙ (rw e refl)
      ]

  entry-Distinct :
      (b : Bytes) (o : Option ℕ) (rest : List (Bytes × ℕ))
      → lookup b rest ≡ none
      → Distinct rest
      → Distinct (entry b o ++ rest)
  entry-Distinct b none rest absent d = d
  entry-Distinct b (some n) rest absent d = (absent, d)

  from_keys-Distinct :
      (xs : List Bytes)
      → AllDistinct xs
      → Distinct (amounts (from_keys c fields threshold (map key_miner xs)))
  from_keys-Distinct [] d = tt
  from_keys-Distinct (b ∷ xs) (new, d) =
      subst Distinct (sym (amounts-keys b xs)) (
        entry-Distinct b (due b) _ (lookup-from_keys b xs ∙ (rw new refl))
          (from_keys-Distinct xs d))

  from_keys-append :
      (xs ys : List Bytes)
      → from_keys c fields threshold (xs ++ ys)
        ≡ from_keys c fields threshold xs ++ from_keys c fields threshold ys
  from_keys-append [] ys = refl
  from_keys-append (x ∷ xs) ys =
      ap (λ r. from_key c fields threshold x ++ r) (from_keys-append xs ys)
      ∙ sym (
          append_assoc (from_key c fields threshold x) (from_keys c fields threshold xs)
            (from_keys c fields threshold ys))

  pages-from_keys :
      (pages : List (List Bytes))
      → get_miners_with_balance c fields threshold (map some pages)
        ≡ some (from_keys c fields threshold (keys_of pages))
  unfolding get_miners_with_balance
  pages-from_keys [] = refl
  pages-from_keys (keys ∷ pages) =
      ap (append_page c fields threshold (from_keys c fields threshold keys))
        (pages-from_keys pages)
      ∙ ap some (sym (from_keys-append keys (keys_of pages)))

-- If SCAN gives all its pages, with the keys of these addresses: the listed miners are the
-- addresses whose key is no worker's and whose balance is at least the threshold, each with its
-- balance, and if no key is given twice, no miner is listed twice.
pub get_miners_with_balance-due :
    (c : Codec) (fields : Bytes → Option (List (Bytes × Bytes))) (threshold : ℕ)
    (pages : List (List Bytes)) (xs : List Bytes)
    → keys_of pages ≡ map key_miner xs
    → (ms : List Miner) × ((get_miners_with_balance c fields threshold (map some pages) ≡ some ms)
        × (((a : Bytes)
              → lookup a (amounts ms) ≡ (if member a xs then due c fields threshold a else none))
            × (AllDistinct xs → Distinct (amounts ms))))
get_miners_with_balance-due c fields threshold pages xs h = (
  from_keys c fields threshold (map key_miner xs),
  (
    pages-from_keys c fields threshold pages ∙ ap (λ k. some (from_keys c fields threshold k)) h,
    ((λ a. lookup-from_keys c fields threshold a xs), from_keys-Distinct c fields threshold xs),
  ),
)
