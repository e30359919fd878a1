-- ===== src/Getwork/Logins.antt =====
-- The logins of the getwork server and of the stratum server (internal/slave/getwork.go,
-- internal/slave/stratum.go).
use tos_pool.Prelude.{
  ◌≡◌, refl, sym, ap, ◌∙◌, true, false, Option, none, some, [], ◌∷◌, ◌++◌, Bool-cases, inl, inr,
}
use tos_pool.Prelude.Maps.{Bytes, codes}
use tos_pool.Util.Hex.{validate_address}
use tos_pool.Stratum.Session.{parse_worker_id}
use tos_pool.Stratum.Names.{Lacks, validate_address-Lacks, parse_worker_id-append}
use tos_pool.Getwork.State.{split_last_dot, parse_login}

split_last_dot-none : (s : Bytes) → Lacks b'.' s → split_last_dot s ≡ none
unfolding split_last_dot
split_last_dot-none [] h = refl
split_last_dot-none (c ∷ s) h = rw (split_last_dot-none s h.1, h.0) refl

split_last_dot-append :
    (a w : Bytes) → Lacks b'.' w → split_last_dot (a ++ (b'.' ∷ w)) ≡ some (a, w)
unfolding split_last_dot
split_last_dot-append [] w h = rw (split_last_dot-none w h) refl
split_last_dot-append (c ∷ a) w h = rw (split_last_dot-append a w h) refl

parse_login-append : (a w : Bytes) → Lacks b'.' w → parse_login (a ++ (b'.' ∷ w)) ≡ (a, w)
unfolding parse_login
parse_login-append a w h = ap (split (a ++ (b'.' ∷ w))) (split_last_dot-append a w h)
  where
    split : Bytes → Option (Bytes × Bytes) → Bytes × Bytes
    split u o = elim o [ none ↦ (u, codes "default") | some p ↦ p ]

Lacks-append : (a b : Bytes) → Lacks b'.' (a ++ b) → Lacks b'.' b
Lacks-append [] b h = h
Lacks-append (c ∷ a) b h = Lacks-append a b h.1

-- A login of a valid address and a worker's name is taken apart by the getwork server as by the
-- stratum server, if the name has no dot; if it has one, the getwork server takes what stands
-- before its last dot for the address, which is not valid then.
parse_login-parse_worker_id :
    (a x w : Bytes)
    → validate_address a ≡ true
    → Lacks b'.' w
    → (parse_login (a ++ (b'.' ∷ w)) ≡ parse_worker_id (a ++ (b'.' ∷ w)))
      × ((parse_login ((a ++ (b'.' ∷ x)) ++ (b'.' ∷ w)) ≡ (a ++ (b'.' ∷ x), w))
          × (validate_address (a ++ (b'.' ∷ x)) ≡ false))
parse_login-parse_worker_id a x w good h = (
  parse_login-append a w h ∙ sym (parse_worker_id-append a w good),
  (parse_login-append (a ++ (b'.' ∷ x)) w h, invalid),
)
  where
    invalid : validate_address (a ++ (b'.' ∷ x)) ≡ false
    invalid = elim (Bool-cases (validate_address (a ++ (b'.' ∷ x)))) [
      | inr e ↦ e
      | inl e ↦ let lacks = (Lacks-append a (b'.' ∷ x) (validate_address-Lacks _ e)).0 in cc
    ]
