-- ===== src/TosHash/Passes.antt =====
-- What the passes of stage 2 compute: the word that was written last is also the neighbour, so the
-- two cancel and each word is mixed with 0.
use Prim.Native.Nat.{bit_xor}
use mathlib.Core.Path.{ap₂}
use mathlib.Core.List.{
  reverse, reverse-cons, reverse-reverse, map-map, map-append, append_assoc, append-nil,
}
use tos_pool.Prelude.{
  ℕ, zero, suc, ◌+◌, ◌-◌, ◌≡◌, refl, ap, ◌∙◌, sym, true, ◌≢◌, List, [], ◌∷◌, ◌++◌, map, arith,
  if◌then◌else◌, ltb, length, length-append, length-map, false, set,
}
use tos_pool.TosHash.Words.{mix}
use tos_pool.TosHash.Bits.{bit_xor_self}
use tos_pool.TosHash.Mix.{at, forward, backward, pass_over, stage2_mix}

-- Mixing with 0.
abbrev pub alone : ℕ → ℕ → ℕ
alone pass w = mix w 0 pass

at-middle : (pre : List ℕ) (w : ℕ) (post : List ℕ) → at (pre ++ (w ∷ post)) (length pre) ≡ w
at-middle [] w post = refl
at-middle (v ∷ pre) w post = at-middle pre w post

set-middle :
    (pre : List ℕ) (w v : ℕ) (post : List ℕ)
    → set (pre ++ (w ∷ post)) (length pre) v ≡ pre ++ (v ∷ post)
set-middle [] w v post = refl
set-middle (u ∷ pre) w v post = ap (◌∷◌ u) (set-middle pre w v post)

-- The word before index `i`, going round.
abbrev before : ℕ → ℕ → List ℕ → ℕ
before size i s = if ltb 0 i then at s (i - 1) else at s (size - 1)

before-snoc :
    (size : ℕ) (pre : List ℕ) (v : ℕ) (post : List ℕ)
    → before size (length pre + 1) (pre ++ (v ∷ post)) ≡ v
before-snoc size pre v post =
    let e : length pre + 1 - 1 ≡ length pre = omega arith in
    let t : ltb 0 (length pre + 1) ≡ true = ground arith in simp (t, e) (at-middle pre v post)

snoc : (pre : List ℕ) (v : ℕ) (post : List ℕ) → pre ++ (v ∷ post) ≡ (pre ++ (v ∷ [])) ++ post
snoc pre v post = sym (append_assoc pre (v ∷ []) post)

forward-map :
    (size pass : ℕ) (rest pre : List ℕ) (i carry : ℕ) (s : List ℕ)
    → i ≡ length pre
    → s ≡ pre ++ rest
    → carry ≡ before size i s
    → forward size pass (length rest) i carry s ≡ pre ++ map (alone pass) rest
unfolding forward
forward-map size pass [] pre i carry s ei es c = es
forward-map size pass (w ∷ rest) pre i carry s ei es c =
    let v = alone pass w in
    let x = mix (at s i) (bit_xor (before size i s) carry) pass in
    let here : at s i ≡ w = ap₂ at es ei ∙ at-middle pre w rest in
    let cancel : bit_xor (before size i s) carry ≡ 0 =
      ap (bit_xor (before size i s)) c ∙ bit_xor_self (before size i s) in
    let mixed : x ≡ v = ap₂ (λ a b. mix a b pass) here cancel in
    let s' : set s i x ≡ pre ++ (v ∷ rest) =
      ap₂ (λ t k. set t k x) es ei ∙ set-middle pre w x rest ∙ ap (λ y. pre ++ (y ∷ rest)) mixed in
    let last : x ≡ before size (i + 1) (set s i x) =
      mixed ∙ sym (ap₂ (λ k t. before size (k + 1) t) ei s' ∙ before-snoc size pre v rest) in
    forward-map size pass rest (pre ++ (v ∷ [])) (i + 1) x (set s i x)
      (omega (arith, length-append pre (v ∷ []))) (s' ∙ snoc pre v rest) last
    ∙ sym (snoc pre v (map (alone pass) rest))

-- The word after index `i`, going round.
abbrev after : ℕ → ℕ → List ℕ → ℕ
after size i s = if ltb i (size - 1) then at s (i + 1) else at s 0

at-after :
    (pre : List ℕ) (w v : ℕ) (post : List ℕ) → at (pre ++ (w ∷ v ∷ post)) (length pre + 1) ≡ v
at-after [] w v post = refl
at-after (u ∷ pre) w v post =
    let e : suc (length pre) + 1 ≡ suc (length pre + 1) = omega arith in
    rw e (at-after pre w v post)

length-reverse : (xs : List ℕ) → length (reverse xs) ≡ length xs
length-reverse [] = refl
length-reverse (x ∷ xs) =
    omega
      (arith, ap length (reverse-cons x xs), length-append (reverse xs) (x ∷ []), length-reverse xs)

unroll :
    (todo : List ℕ) (w : ℕ) (post : List ℕ)
    → reverse (w ∷ todo) ++ post ≡ reverse todo ++ (w ∷ post)
unroll todo w post =
    ap (λ t. t ++ post) (reverse-cons w todo) ∙ append_assoc (reverse todo) (w ∷ []) post

after-top :
    (size i : ℕ) (s pre : List ℕ) (v : ℕ) (post : List ℕ)
    → i ≡ length pre
    → i + suc (length post) ≡ size
    → s ≡ pre ++ (v ∷ post)
    → i ≢ 0
    → after size (i - 1) s ≡ v
after-top size i s pre v post ei n es pos =
    let e : i - 1 + 1 ≡ i = omega arith in
    let t : ltb (i - 1) (size - 1) ≡ true = ground arith in
    simp (t, e) (ap₂ at es ei ∙ at-middle pre v post)

-- The backward loop has still to do the indices of `todo`, whose words stand in reverse.
backward-map :
    (size pass : ℕ) (todo post : List ℕ) (i carry : ℕ) (s : List ℕ)
    → i ≡ length todo
    → i + length post ≡ size
    → s ≡ reverse todo ++ post
    → (i ≢ 0 → carry ≡ after size (i - 1) s)
    → backward size pass i carry s ≡ reverse (map (alone pass) todo) ++ post
unfolding backward
backward-map size pass [] post zero carry s ei n es c = es
backward-map size pass [] post (suc i) carry s ei n es c = absurd (omega arith)
backward-map size pass (w ∷ todo) post zero carry s ei n es c = absurd (omega arith)
backward-map size pass (w ∷ todo) post (suc i) carry s ei n es c =
    let v = alone pass w in
    let pre = reverse todo in
    let x = mix (at s i) (bit_xor (after size i s) carry) pass in
    let es' : s ≡ pre ++ (w ∷ post) = es ∙ unroll todo w post in
    let ep : i ≡ length pre = omega (arith, length-reverse todo) in
    let e1 : suc i - 1 ≡ i = omega arith in
    let same : carry ≡ after size i s =
      c (λ h. absurd (omega arith)) ∙ ap (λ k. after size k s) e1 in
    let here : at s i ≡ w = ap₂ at es' ep ∙ at-middle pre w post in
    let cancel : bit_xor (after size i s) carry ≡ 0 =
      ap (bit_xor (after size i s)) same ∙ bit_xor_self (after size i s) in
    let mixed : x ≡ v = ap₂ (λ a b. mix a b pass) here cancel in
    let s' : set s i x ≡ pre ++ (v ∷ post) =
      ap₂ (λ t k. set t k x) es' ep ∙ set-middle pre w x post ∙ ap (λ y. pre ++ (y ∷ post)) mixed in
    backward-map size pass todo (v ∷ post) i x (set s i x) (omega arith) (omega arith) s'
      (λ pos. mixed ∙ sym (after-top size i (set s i x) pre v post ep (omega arith) s' pos))
    ∙ sym (unroll (map (alone pass) todo) v post)

map-reverse : (f : ℕ → ℕ) (xs : List ℕ) → map f (reverse xs) ≡ reverse (map f xs)
map-reverse f [] = refl
map-reverse f (x ∷ xs) =
    ap (map f) (reverse-cons x xs)
    ∙ map-append f (reverse xs) (x ∷ [])
    ∙ ap (λ t. t ++ (f x ∷ [])) (map-reverse f xs)
    ∙ sym (reverse-cons (f x) (map f xs))

backward-whole :
    (pass : ℕ) (s : List ℕ) → backward (length s) pass (length s) (at s 0) s ≡ map (alone pass) s
backward-whole pass s =
    let top : ltb (length s - 1) (length s - 1) ≡ false = ground arith in
    backward-map (length s) pass (reverse s) [] (length s) (at s 0) s (sym (length-reverse s))
      (omega arith) (sym (append-nil (reverse (reverse s)) ∙ reverse-reverse s)) (λ ne. simp top)
    ∙ append-nil _
    ∙ ap reverse (map-reverse (alone pass) s)
    ∙ reverse-reverse (map (alone pass) s)

pass_over-map : (pass : ℕ) (s : List ℕ) → pass_over (length s) pass s ≡ map (alone pass) s
pass_over-map pass s = ground (
  arith,
  forward-map (length s) pass s [] 0 (at s (length s - 1)) s refl refl refl,
  backward-whole pass s,
)

pass_over-mapped :
    (pass : ℕ) (f : ℕ → ℕ) (s : List ℕ)
    → pass_over (length s) pass (map f s) ≡ map (λ w. alone pass (f w)) s
pass_over-mapped pass f s =
    ap (λ n. pass_over n pass (map f s)) (sym (length-map s f))
    ∙ pass_over-map pass (map f s)
    ∙ map-map (alone pass) f s

-- The four passes of stage 2 mix no word with its neighbour: on a scratchpad of any size they map
-- one function over the words, which mixes a word with 0 four times.
pub stage2_mix-map :
    (s : List ℕ) → stage2_mix (length s) s ≡ map (λ w. mix (mix (mix (mix w 0 0) 0 1) 0 2) 0 3) s
unfolding stage2_mix
stage2_mix-map s =
    ap (λ t. pass_over (length s) 3 (pass_over (length s) 2 (pass_over (length s) 1 t)))
      (pass_over-map 0 s)
    ∙ ap (λ t. pass_over (length s) 3 (pass_over (length s) 2 t)) (pass_over-mapped 1 (alone 0) s)
    ∙ ap (pass_over (length s) 3) (pass_over-mapped 2 (λ w. alone 1 (alone 0 w)) s)
    ∙ pass_over-mapped 3 (λ w. alone 2 (alone 1 (alone 0 w))) s
