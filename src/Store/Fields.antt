-- ===== src/Store/Fields.antt =====
-- What a pipeline does to one integer field, set or number of the store.
use tos_pool.Prelude.{
  ℕ, ◌≡◌, ◌≢◌, refl, sym, ap, ◌∙◌, false, none, some, List, [], ◌∷◌, ◌++◌, arith, if-elim,
  if◌then◌else◌, ◌<◌, ◌^◌,
}
use tos_pool.Prelude.Int.{ℤ, pos, neg, int64, int64-id}
use tos_pool.Prelude.Maps.{Bytes, bytes_eq, bytes_Eq, beq_ne}
use tos_pool.Store.Redis.{Command, hincr_by, zrem, Redis, IsRedis, run, changes_field, changes_set}
use tos_pool.Store.Data.{Codec, key_miner, signed, minus}
use tos_pool.Store.Blocks.{remove_block}

pub run-append :
    {S : Type 0} (r : Redis S) (s : S) (xs ys : List Command)
    → run r s (xs ++ ys) ≡ run r (run r s xs) ys
unfolding run
run-append r s [] ys = refl
run-append r s (x ∷ xs) ys = run-append r (r.exec s x) xs ys

-- No command of the pipeline changes the field, or the set.
abbrev pub KeepsField : List Command → Bytes → Bytes → Type 0
KeepsField [] k f = Unit {0}
KeepsField (c ∷ cs) k f = (changes_field c k f ≡ false) × KeepsField cs k f

abbrev pub KeepsSet : List Command → Bytes → Type 0
KeepsSet [] k = Unit {0}
KeepsSet (c ∷ cs) k = (changes_set c k ≡ false) × KeepsSet cs k

module _ {S : Type 0} (r : Redis S) (law : IsRedis r) where
  pub run-KeepsField :
      (s : S) (cs : List Command) (k f : Bytes)
      → KeepsField cs k f
      → r.field (run r s cs) k f ≡ r.field s k f
  unfolding run
  run-KeepsField s [] k f h = refl
  run-KeepsField s (c ∷ cs) k f h =
      run-KeepsField (r.exec s c) cs k f h.1 ∙ law.field_kept s c k f h.0

  pub run-KeepsSet :
      (s : S) (cs : List Command) (k : Bytes)
      → KeepsSet cs k
      → r.zrange (run r s cs) k ≡ r.zrange s k
  unfolding run
  run-KeepsSet s [] k h = refl
  run-KeepsSet s (c ∷ cs) k h = run-KeepsSet (r.exec s c) cs k h.1 ∙ law.set_kept s c k h.0

-- Fields of two miners differ, and two fields of one miner.
pub other_miner :
    (a b f g : Bytes) (n : ℤ)
    → a ≢ b
    → changes_field (hincr_by (key_miner b) g n) (key_miner a) f ≡ false
unfolding changes_field
other_miner a b f g n h = ground (arith, beq_ne b a (λ e. h (sym e)))

pub other_field :
    (a b f g : Bytes) (n : ℤ)
    → bytes_eq g f ≡ false
    → changes_field (hincr_by (key_miner b) g n) (key_miner a) f ≡ false
unfolding changes_field
other_field a b f g n h = ground (arith, h)

KeepsField-append :
    (xs ys : List Command) (k f : Bytes)
    → KeepsField xs k f
    → KeepsField ys k f
    → KeepsField (xs ++ ys) k f
KeepsField-append [] ys k f p q = q
KeepsField-append (x ∷ xs) ys k f p q = (p.0, KeepsField-append xs ys k f p.1 q)

pub remove_block-KeepsField :
    (c : Codec) (set hash : Bytes) (ms : List Bytes) (k f : Bytes)
    → KeepsField (remove_block c set hash ms) k f
unfolding remove_block changes_field
remove_block-KeepsField c set hash [] k f = tt
remove_block-KeepsField c set hash (m ∷ ms) k f =
    let rest = remove_block-KeepsField c set hash ms k f in
    let others = remove_block c set hash ms in
    elim (c.unmarshal_block m)
      as (λ o.
        KeepsField
          (elim o [
            | none ↦ others
            | some b ↦ if bytes_eq b.hash hash then zrem set m ∷ [] else others
          ])
          k f) [
            | none ↦ rest
            | some b ↦
                if-elim (λ cs. KeepsField cs k f) (bytes_eq b.hash hash) (λ e. (refl, tt))
                  (λ e. rest)
          ]

-- Amounts below 2^63 are sent as they are.
pub signed-pos : (n : ℕ) → n < 2 ^ 63 → signed n ≡ pos n
unfolding signed
signed-pos n h = int64-id (pos n) (omega arith, omega arith)

pub minus-neg : (n : ℕ) → n < 2 ^ 63 → minus n ≡ neg (pos n)
unfolding minus
minus-neg n h =
    ap (λ z. int64 (neg z)) (int64-id (pos n) (omega arith, omega arith))
    ∙ int64-id (neg (pos n)) (ground arith)
