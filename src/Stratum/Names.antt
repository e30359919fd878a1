-- ===== src/Stratum/Names.antt =====
-- Names and addresses are taken apart as they were put together (internal/slave/stratum.go).
use mathlib.Core.Path.{subst}
use tos_pool.Prelude.{
  ℕ, zero, suc, ◌≡◌, refl, sym, ap, ◌∙◌, Bool, true, false, ◌&&◌, ◌||◌, not, Option, none, some, [],
  ◌∷◌, ◌++◌, ◌==◌, ==_iff, take, drop, if◌then◌else◌, length, Bool-cases, inl, inr,
}
use tos_pool.Prelude.Maps.{Bytes, codes, bytes_eq, bytes_eq_iff, bytes_Eq, nat_eq, member}
use tos_pool.Util.Hex.{validate_address, all_bech32}
use tos_pool.Stratum.Session.{
  split_dot, parse_worker_id, before_last_colon, extract_ip, trim_open, trim_close,
}

-- No byte of the list is `c`.
abbrev pub Lacks : ℕ → Bytes → Type 0
Lacks c [] = Unit {0}
Lacks c (x ∷ s) = ((x == c) ≡ false) × Lacks c s

Lacks-take : (c n : ℕ) (s : Bytes) → Lacks c (take n s) → Lacks c (drop n s) → Lacks c s
Lacks-take c zero s h k = k
Lacks-take c (suc n) [] h k = tt
Lacks-take c (suc n) (x ∷ s) h k = (h.0, Lacks-take c n s h.1 k)

split_dot-append : (a w : Bytes) → Lacks b'.' a → split_dot (a ++ (b'.' ∷ w)) ≡ some (a, w)
unfolding split_dot
split_dot-append [] w h = refl
split_dot-append (c ∷ a) w h = rw (h.0, split_dot-append a w h.1) refl

bech32_dot :
    (c : ℕ) → member c (codes "023456789acdefghjklmnpqrstuvwxyz") ≡ true → (c == b'.') ≡ false
bech32_dot c h = elim (Bool-cases (c == b'.')) [
  | inr e ↦ e
  | inl e ↦
      let dot : member b'.' (codes "023456789acdefghjklmnpqrstuvwxyz") ≡ true =
        subst (λ x. member x (codes "023456789acdefghjklmnpqrstuvwxyz") ≡ true)
          ((==_iff c b'.').0 e) h in
      cc
]

all_bech32-Lacks : (s : Bytes) → all_bech32 s ≡ true → Lacks b'.' s
all_bech32-Lacks [] h = tt
all_bech32-Lacks (c ∷ s) h =
    let (p, q) = split_and (member c (codes "023456789acdefghjklmnpqrstuvwxyz")) (all_bech32 s) h in
    (bech32_dot c p, all_bech32-Lacks s q)
  where
    split_and : (a b : Bool) → (a && b) ≡ true → (a ≡ true) × (b ≡ true)
    split_and true b h = (refl, h)
    split_and false b h = cc

prefix-Lacks :
    (p : Bytes) → (bytes_eq p (codes "tos1") || bytes_eq p (codes "tst1")) ≡ true → Lacks b'.' p
prefix-Lacks p h = elim (Bool-cases (bytes_eq p (codes "tos1"))) [
  | inl e ↦
      subst (Lacks b'.') (sym ((bytes_eq_iff p (codes "tos1")).0 e))
        (refl, (refl, (refl, (refl, tt))))
  | inr e ↦
      subst (Lacks b'.')
        (sym (
          (bytes_eq_iff p (codes "tst1")).0
            (rest (bytes_eq p (codes "tos1")) (bytes_eq p (codes "tst1")) h e)))
        (refl, (refl, (refl, (refl, tt))))
]
  where
    rest : (a b : Bool) → (a || b) ≡ true → a ≡ false → b ≡ true
    rest true b h e = cc
    rest false b h e = h

pub validate_address-Lacks : (a : Bytes) → validate_address a ≡ true → Lacks b'.' a
unfolding validate_address
validate_address-Lacks a h =
    let (p, q) =
      parts (bytes_eq (take 4 a) (codes "tos1") || bytes_eq (take 4 a) (codes "tst1"))
        (length a == 63) (all_bech32 (drop 4 a)) h in
    Lacks-take b'.' 4 a (prefix-Lacks (take 4 a) p) (all_bech32-Lacks (drop 4 a) q)
  where
    parts :
        (a b c : Bool)
        → (if not a then false else (if b then c else false)) ≡ true
        → (a ≡ true) × (c ≡ true)
    parts false b c h = cc
    parts true false c h = cc
    parts true true c h = (refl, h)

-- A valid address and a worker's name, joined by a dot, are read back as they were, also where the
-- worker's name has dots.
pub parse_worker_id-append :
    (a w : Bytes) → validate_address a ≡ true → parse_worker_id (a ++ (b'.' ∷ w)) ≡ (a, w)
unfolding parse_worker_id
parse_worker_id-append a w h =
    ap (split (a ++ (b'.' ∷ w))) (split_dot-append a w (validate_address-Lacks a h))
  where
    split : Bytes → Option (Bytes × Bytes) → Bytes × Bytes
    split u o = elim o [ none ↦ (u, codes "default") | some p ↦ p ]

before_last_colon-none : (s : Bytes) → Lacks b':' s → before_last_colon s ≡ none
unfolding before_last_colon
before_last_colon-none [] h = refl
before_last_colon-none (c ∷ s) h = rw (before_last_colon-none s h.1, h.0) refl

before_last_colon-append :
    (ip port : Bytes) → Lacks b':' port → before_last_colon (ip ++ (b':' ∷ port)) ≡ some ip
unfolding before_last_colon
before_last_colon-append [] port h = rw (before_last_colon-none port h) refl
before_last_colon-append (c ∷ ip) port h = rw (before_last_colon-append ip port h) refl

trim_close-append : (s : Bytes) → trim_close (s ++ (b']' ∷ [])) ≡ s
trim_close-append [] = refl
trim_close-append (c ∷ []) = refl
trim_close-append (c ∷ d ∷ s) = ap (λ r. c ∷ r) (trim_close-append (d ∷ s))

-- An IP in brackets and a port without a colon, joined by one, give back the IP, though it may have
-- colons of its own.
extract_ip-append :
    (ip port : Bytes)
    → Lacks b':' port
    → extract_ip ((b'[' ∷ (ip ++ (b']' ∷ []))) ++ (b':' ∷ port)) ≡ ip
unfolding extract_ip
extract_ip-append ip port h =
    ap stripped (before_last_colon-append (b'[' ∷ (ip ++ (b']' ∷ []))) port h)
    ∙ trim_close-append ip
  where
    stripped : Option Bytes → Bytes
    stripped o = elim o [
      | none ↦ (b'[' ∷ (ip ++ (b']' ∷ []))) ++ (b':' ∷ port)
      | some x ↦ trim_close (trim_open x)
    ]
