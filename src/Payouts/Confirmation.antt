-- ===== src/Payouts/Confirmation.antt =====
-- Waiting for a transaction (waitForTxConfirmation, internal/master/master.go).
use mathlib.Core.Path.{subst}
use tos_pool.Prelude.{
  ==_iff, ◌⊎◌, ◌∙◌, sym, ap, take-append-drop, drop, take, length-take, ℕ, zero, suc, ◌+◌, ◌*◌, ◌≤◌,
  ◌<◌, ◌≡◌, ◌≢◌, refl, sym, ap, ◌∙◌, Bool, true, false, Option, none, some, List, [], ◌∷◌, ◌++◌,
  ltb, ◌==◌, if◌then◌else◌, take, drop, length, arith, take-append-drop, length-take, lt→ltb,
  Bool-cases, inl, inr,
}

abbrev pub tx_confirm_timeout : ℕ
tx_confirm_timeout = 300_000_000_000

abbrev pub tx_confirm_poll_rate : ℕ
tx_confirm_poll_rate = 5_000_000_000

-- What the select gives: the end of the context, or a tick of the ticker, with the reading of the
-- clock, whether there is a client, and the status in the receipt of the node: `none` is an error,
-- and `some none` a nil receipt.
pub data Event : Type 0 where
  cancel : Event
  tick : ℕ → Bool → Option (Option ℕ) → Event

-- `waiting` where the events end before the function returns.
pub data Outcome : Type 0 where
  confirmed cancelled timed_out waiting : Outcome
  failed : ℕ → Outcome

abbrev pub answer : Option (Option ℕ) → Outcome
answer none = waiting
answer (some none) = waiting
answer (some (some status)) = if status == 1 then confirmed else failed status

abbrev pub poll : ℕ → Event → Outcome
poll deadline cancel = cancelled
poll deadline (tick now client receipt) =
    if ltb deadline now then timed_out else (if client then answer receipt else waiting)

abbrev pub or_else : Outcome → Outcome → Outcome
or_else waiting rest = rest
or_else confirmed rest = confirmed
or_else cancelled rest = cancelled
or_else timed_out rest = timed_out
or_else (failed status) rest = failed status

unfoldable pub poll_all : ℕ → List Event → Outcome
poll_all deadline [] = waiting
poll_all deadline (e ∷ es) = or_else (poll deadline e) (poll_all deadline es)

unfoldable pub wait_for_tx_confirmation : ℕ → List Event → Outcome
wait_for_tx_confirmation start events = poll_all (start + tx_confirm_timeout) events

-- What a ticker of 5 seconds promises: the tick number `i` is read 5 · `i` seconds after the start,
-- or later. The first event has the number `i + 1`.
abbrev pub OnTime : ℕ → ℕ → List Event → Type 0
OnTime start i [] = Unit {0}
OnTime start i (cancel ∷ es) = OnTime start (suc i) es
OnTime start i (tick now client receipt ∷ es) =
    (start + tx_confirm_poll_rate * suc i ≤ now) × OnTime start (suc i) es

-- A tick, not after the deadline, at which the node gave a receipt with status 1.
abbrev pub Mined : ℕ → List Event → Type 0
Mined deadline [] = ⊥
Mined deadline (cancel ∷ es) = Mined deadline es
Mined deadline (tick now client receipt ∷ es) =
    ((now ≤ deadline) × ((client ≡ true) × (receipt ≡ some (some 1)))) ⊎ Mined deadline es

or_else-waiting : (a b : Outcome) → b ≢ waiting → or_else a b ≢ waiting
or_else-waiting waiting b h = h
or_else-waiting confirmed b h = λ e. cc
or_else-waiting cancelled b h = λ e. cc
or_else-waiting timed_out b h = λ e. cc
or_else-waiting (failed n) b h = λ e. cc

or_else_settled : (a b : Outcome) → a ≢ waiting → or_else a b ≡ a
or_else_settled waiting b h = absurd (h refl)
or_else_settled confirmed b h = refl
or_else_settled cancelled b h = refl
or_else_settled timed_out b h = refl
or_else_settled (failed n) b h = refl

or_else_assoc : (a b c : Outcome) → or_else a (or_else b c) ≡ or_else (or_else a b) c
or_else_assoc waiting b c = refl
or_else_assoc confirmed b c = refl
or_else_assoc cancelled b c = refl
or_else_assoc timed_out b c = refl
or_else_assoc (failed n) b c = refl

poll_all-append :
    (d : ℕ) (xs ys : List Event) → poll_all d (xs ++ ys) ≡ or_else (poll_all d xs) (poll_all d ys)
unfolding poll_all
poll_all-append d [] ys = refl
poll_all-append d (x ∷ xs) ys =
    ap (or_else (poll d x)) (poll_all-append d xs ys)
    ∙ or_else_assoc (poll d x) (poll_all d xs) (poll_all d ys)

late-settled :
    (d now : ℕ) (client : Bool) (receipt : Option (Option ℕ)) (rest : Outcome)
    → d < now
    → or_else (poll d (tick now client receipt)) rest ≢ waiting
late-settled d now client receipt rest h = rw (lt→ltb d now h) (λ e. cc)

poll_all-settled :
    (start i : ℕ) (es : List Event)
    → OnTime start i es
    → i ≤ 60
    → 61 ≤ i + length es
    → poll_all (start + tx_confirm_timeout) es ≢ waiting
unfolding poll_all
poll_all-settled start i [] t small h = absurd (omega (arith, small, h))
poll_all-settled start i (cancel ∷ es) t small h = λ e. cc
poll_all-settled start i (tick now client receipt ∷ es) (t, ts) small h =
    elim (Bool-cases (i == 60)) [
      | inl e ↦ late-settled _ now client receipt _ (ground (arith, e, t))
      | inr e ↦
          or_else-waiting (poll (start + tx_confirm_timeout) (tick now client receipt)) _
            (poll_all-settled start (suc i) es ts (ground (arith, e, small)) (omega (arith, h)))
    ]

OnTime-take : (start i n : ℕ) (es : List Event) → OnTime start i es → OnTime start i (take n es)
OnTime-take start i zero es t = tt
OnTime-take start i (suc n) [] t = tt
OnTime-take start i (suc n) (cancel ∷ es) t = OnTime-take start (suc i) n es t
OnTime-take start i (suc n) (tick now client receipt ∷ es) (t, ts) =
    (t, OnTime-take start (suc i) n es ts)

-- With a ticker of 5 seconds, `waitForTxConfirmation` returns at its 61st event, or before: its
-- result does not depend on later events.
pub wait_for_tx_confirmation-settled :
    (start : ℕ) (es : List Event)
    → OnTime start 0 es
    → 61 ≤ length es
    → let r = wait_for_tx_confirmation start (take 61 es) in
      (r ≢ waiting) × (wait_for_tx_confirmation start es ≡ r)
unfolding wait_for_tx_confirmation
wait_for_tx_confirmation-settled start es t h =
    let d = start + tx_confirm_timeout in
    let early = take 61 es in
    let settled =
      poll_all-settled start 0 early (OnTime-take start 0 61 es t) (omega arith)
        (omega (arith, h, length-take 61 es)) in
    (
      settled,
      ap (poll_all d) (sym (take-append-drop 61 es))
          ∙ poll_all-append d early (drop 61 es)
          ∙ or_else_settled (poll_all d early) _ settled,
    )

answer-confirmed :
    (client : Bool) (receipt : Option (Option ℕ)) (rest : Outcome)
    → or_else (if client then answer receipt else waiting) rest ≡ confirmed
    → ((client ≡ true) × (receipt ≡ some (some 1))) ⊎ (rest ≡ confirmed)
answer-confirmed false receipt rest h = inr h
answer-confirmed true none rest h = inr h
answer-confirmed true (some none) rest h = inr h
answer-confirmed true (some (some status)) rest h = elim (Bool-cases (status == 1)) [
  | inl e ↦ inl (refl, ap (λ n. some (some n)) ((==_iff status 1).0 e))
  | inr e ↦
      let other =
        subst (λ b. or_else (if b then confirmed else failed status) rest ≡ confirmed) e h in
      cc
]

poll-confirmed :
    (d now : ℕ) (client : Bool) (receipt : Option (Option ℕ)) (rest : Outcome)
    → or_else (poll d (tick now client receipt)) rest ≡ confirmed
    → ((now ≤ d) × ((client ≡ true) × (receipt ≡ some (some 1)))) ⊎ (rest ≡ confirmed)
poll-confirmed d now client receipt rest h = elim (Bool-cases (ltb d now)) [
  | inl e ↦
      let late =
        subst
          (λ b.
            or_else (if b then timed_out else (if client then answer receipt else waiting)) rest
            ≡ confirmed)
          e h in
      cc
  | inr e ↦
      let answered =
        subst
          (λ b.
            or_else (if b then timed_out else (if client then answer receipt else waiting)) rest
            ≡ confirmed)
          e h in
      elim (answer-confirmed client receipt rest answered) [
        | inl found ↦ inl (ground (arith, e), found)
        | inr later ↦ inr later
      ]
]

poll_all-Mined : (d : ℕ) (es : List Event) → poll_all d es ≡ confirmed → Mined d es
unfolding poll_all
poll_all-Mined d [] h = cc
poll_all-Mined d (cancel ∷ es) h = cc
poll_all-Mined d (tick now client receipt ∷ es) h =
    elim (poll-confirmed d now client receipt (poll_all d es) h) [
      | inl found ↦ inl found
      | inr later ↦ inr (poll_all-Mined d es later)
    ]

-- `waitForTxConfirmation` confirms a transaction only if a node gave a receipt of it with status 1,
-- at a tick that was not after the timeout of 5 minutes.
pub wait_for_tx_confirmation-Mined :
    (start : ℕ) (es : List Event)
    → wait_for_tx_confirmation start es ≡ confirmed
    → Mined (start + 300_000_000_000) es
unfolding wait_for_tx_confirmation
wait_for_tx_confirmation-Mined start es h = poll_all-Mined (start + tx_confirm_timeout) es h
