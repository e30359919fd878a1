-- ===== src/Policy/Window.antt =====
-- The window of shares over which the ratio is taken, and the score's temporary ban.
use mathlib.Core.Path.{subst}
use tos_pool.Prelude.{
  ℕ, suc, ◌+◌, ◌^◌, ◌≤◌, ◌<◌, ◌≡◌, refl, sym, ap, ◌∙◌, Bool, true, false, not, List, [], ◌∷◌, arith,
  ltb, length, if◌then◌else◌,
}
use tos_pool.Prelude.Int.{pos, ◌+ℤ◌, int32, int32-id}
use tos_pool.Prelude.Maps.{Bytes, bytes_Eq}
use tos_pool.Policy.State.{IpStats, PolicyServer, put, get_stats, ban_ip}
use tos_pool.Policy.Tables.{Float32, apply_share_policy, count_share, invalid_ratio}
use tos_pool.Policy.Bans.{get_stats-put}

abbrev pub count_true : List Bool → ℕ
count_true [] = 0
count_true (true ∷ vs) = suc (count_true vs)
count_true (false ∷ vs) = count_true vs

abbrev pub count_false : List Bool → ℕ
count_false [] = 0
count_false (true ∷ vs) = count_false vs
count_false (false ∷ vs) = suc (count_false vs)

pub int32-sum : (a b : ℕ) → a + b < 2 ^ 31 → int32 (pos a +ℤ pos b) ≡ pos (a + b)
unfolding ◌+ℤ◌
int32-sum a b small = int32-id _ (ground arith) ∙ ground arith

int32-suc : (a : ℕ) → suc a < 2 ^ 31 → int32 (pos a +ℤ pos 1) ≡ pos (suc a)
int32-suc a small = int32-sum a 1 (omega arith) ∙ ap pos (omega arith)

module _ {F : Type 0} (fl : Float32 F) (ip : Bytes) (beat beat' at : ℕ) where
  -- The shares of one address, oldest first.
  abbrev pub submitted : PolicyServer F → List Bool → PolicyServer F
  submitted p [] = p
  submitted p (v ∷ vs) = submitted (apply_share_policy fl p beat beat' at ip v).0 vs

  -- Banning is on, the window is `size` shares, and the counters stand at `a` and `b`.
  abbrev pub Counted : ℕ → ℕ → ℕ → PolicyServer F → Type 0
  Counted size a b p =
      (p.config.banning_enabled ≡ true)
      × (p.config.check_threshold ≡ pos size)
      × ((get_stats p beat ip).valid_shares ≡ pos a)
      × ((get_stats p beat ip).invalid_shares ≡ pos b)

  abbrev next_entry : PolicyServer F → Bool → IpStats
  next_entry p v = count_share p.config (get_stats p beat ip) v

  abbrev more_valid : Bool → ℕ → ℕ
  more_valid true a = suc a
  more_valid false a = a

  abbrev more_invalid : Bool → ℕ → ℕ
  more_invalid true b = b
  more_invalid false b = suc b

  next_entry-counts :
      (p : PolicyServer F) (v : Bool) (size a b : ℕ)
      → Counted size a b p
      → a + b + 1 < 2 ^ 31
      → ((next_entry p v).valid_shares ≡ pos (more_valid v a))
        × ((next_entry p v).invalid_shares ≡ pos (more_invalid v b))
  unfolding count_share
  next_entry-counts p true size a b (on, t, ea, eb) small =
      (ap (λ z. int32 (z +ℤ pos 1)) ea ∙ int32-suc a (omega arith), eb)
  next_entry-counts p false size a b (on, t, ea, eb) small =
      (ea, ap (λ z. int32 (z +ℤ pos 1)) eb ∙ int32-suc b (omega arith))

  submit-runs :
      (p : PolicyServer F) (v : Bool) (size a b : ℕ)
      → Counted size a b p
      → a + b + 1 ≤ size
      → size < 2 ^ 31
      → let st = next_entry p v in
        let zeroed : IpStats = record st { valid_shares = pos 0; invalid_shares = pos 0 } in
        let full : PolicyServer F × Bool =
          if fl.at_least (invalid_ratio fl st) p.config.invalid_percent
          then (ban_ip (put p ip zeroed) beat' at ip, false)
          else (put p ip zeroed, true) in
        apply_share_policy fl p beat beat' at ip v
        ≡ (if ltb (a + b + 1) size then (put p ip st, true) else full)
  unfolding apply_share_policy
  submit-runs p v size a b c few small =
      let (ea, eb) = next_entry-counts p v size a b c (omega arith) in
      let total : int32 ((next_entry p v).valid_shares +ℤ (next_entry p v).invalid_shares)
          ≡ pos (a + b + 1) =
        ap (λ z. int32 (z +ℤ (next_entry p v).invalid_shares)) ea
        ∙ ap (λ z. int32 (pos (more_valid v a) +ℤ z)) eb
        ∙ int32-sum (more_valid v a) (more_invalid v b) (ground arith)
        ∙ ap pos (ground arith) in
      simp (c.0, total, c.1) (ground arith)

  submit-more :
      (p : PolicyServer F) (v : Bool) (size a b : ℕ)
      → Counted size a b p
      → a + b + 1 < size
      → size < 2 ^ 31
      → let q = (apply_share_policy fl p beat beat' at ip v).0 in
        Counted size (more_valid v a) (more_invalid v b) q × (q.config ≡ p.config)
  submit-more p v size a b c few small =
      let st = next_entry p v in
      let (ea, eb) = next_entry-counts p v size a b c (omega arith) in
      let runs : apply_share_policy fl p beat beat' at ip v ≡ (put p ip st, true) =
        submit-runs p v size a b c (omega arith) small ∙ ground arith in
      let again = get_stats-put p beat ip st in
      subst
        (λ (r : PolicyServer F × Bool).
          Counted size (more_valid v a) (more_invalid v b) r.0 × (r.0.config ≡ p.config))
        (sym runs)
        (
          (c.0, c.1, ap (λ s. s.valid_shares) again ∙ ea, ap (λ s. s.invalid_shares) again ∙ eb),
          refl,
        )

  submitted-Counted :
      (vs : List Bool) (p : PolicyServer F) (size a b : ℕ)
      → Counted size a b p
      → a + b + length vs < size
      → size < 2 ^ 31
      → Counted size (count_true vs + a) (count_false vs + b) (submitted p vs)
        × ((submitted p vs).config ≡ p.config)
  submitted-Counted [] p size a b c few small =
      let ea : 0 + a ≡ a = omega arith in let eb : 0 + b ≡ b = omega arith in (rw (ea, eb) c, refl)
  submitted-Counted (true ∷ vs) p size a b c few small =
      let (c', same) = submit-more p true size a b c (omega arith) small in
      let (c'', same') = submitted-Counted vs _ size (suc a) b c' (omega arith) small in
      let e : count_true vs + suc a ≡ suc (count_true vs) + a = omega arith in
      (rw e at c'', same' ∙ same)
  submitted-Counted (false ∷ vs) p size a b c few small =
      let (c', same) = submit-more p false size a b c (omega arith) small in
      let (c'', same') = submitted-Counted vs _ size a (suc b) c' (omega arith) small in
      let e : count_false vs + suc b ≡ suc (count_false vs) + b = omega arith in
      (rw e at c'', same' ∙ same)

  -- The ratio that the code computes from these counts.
  abbrev pub ratio : (invalid valid : ℕ) → F
  ratio invalid valid =
      fl.times (fl.divide (fl.of_int32 (pos invalid)) (fl.of_int32 (pos (valid + 1)))) fl.hundred

  counts-length : (vs : List Bool) → count_true vs + count_false vs ≡ length vs
  counts-length [] = refl
  counts-length (true ∷ vs) = omega (arith, counts-length vs)
  counts-length (false ∷ vs) = omega (arith, counts-length vs)

  invalid_ratio-counts :
      (st : IpStats) (invalid valid : ℕ)
      → st.invalid_shares ≡ pos invalid
      → st.valid_shares ≡ pos valid
      → valid + 1 < 2 ^ 31
      → invalid_ratio fl st ≡ ratio invalid valid
  unfolding invalid_ratio
  invalid_ratio-counts st invalid valid ei ev small =
      ap
        (λ z.
          fl.times (fl.divide (fl.of_int32 z) (fl.of_int32 (int32 (st.valid_shares +ℤ pos 1))))
            fl.hundred)
        ei
      ∙ ap (λ z. fl.times (fl.divide (fl.of_int32 (pos invalid)) (fl.of_int32 z)) fl.hundred)
          (ap (λ z. int32 (z +ℤ pos 1)) ev ∙ int32-sum valid 1 small)

  more_valid-count :
      (v : Bool) (vs : List Bool) → more_valid v (count_true vs + 0) ≡ count_true (v ∷ vs)
  more_valid-count true vs = omega arith
  more_valid-count false vs = omega arith

  more_invalid-count :
      (v : Bool) (vs : List Bool) → more_invalid v (count_false vs + 0) ≡ count_false (v ∷ vs)
  more_invalid-count true vs = omega arith
  more_invalid-count false vs = omega arith

  -- From counters at zero, with banning on, each share of a window passes until the window is full;
  -- the share that fills it is judged by the ratio of the whole window, whatever the order of its
  -- shares. The window is shorter than the int32 counters.
  pub window_verdict :
      (vs : List Bool) (v : Bool) (p : PolicyServer F) (size : ℕ)
      → Counted size 0 0 p
      → length vs < size
      → size + 1 < 2 ^ 31
      → (apply_share_policy fl (submitted p vs) beat beat' at ip v).1 ≡ (
          if ltb (length (v ∷ vs)) size
          then true
          else not (
              fl.at_least
                (ratio (count_false (v ∷ vs)) (count_true (v ∷ vs)))
                p.config.invalid_percent))
  window_verdict vs v p size c few small =
      let q = submitted p vs in
      let (cq, same) = submitted-Counted vs p size 0 0 c (omega arith) (omega arith) in
      let a = count_true vs + 0 in
      let b = count_false vs + 0 in
      let total = counts-length vs in
      let (ea, eb) = next_entry-counts q v size a b cq (omega (arith, total)) in
      let r : invalid_ratio fl (next_entry q v)
          ≡ ratio (count_false (v ∷ vs)) (count_true (v ∷ vs)) =
        invalid_ratio-counts (next_entry q v) _ _ (eb ∙ ap pos (more_invalid-count v vs))
          (ea ∙ ap pos (more_valid-count v vs)) (omega (arith, counts-length (v ∷ vs))) in
      ap (λ x. x.1) (submit-runs q v size a b cq (omega (arith, total)) (omega arith))
      ∙ simp same (ground (arith, total))
