-- ===== src/Timers/Started.antt =====
-- When the running timer of a label was started, and what each operation does to that.
use hfttoolset.Base.{
  ℕ, ℤ, pos, ◌-ℤ◌, Bool, true, false, not, ◌&&◌, List, [], ◌∷◌, Option, none, some, if◌then◌else◌,
  ◌≡◌, refl, ap, ◌∙◌, inl, inr, Bool-cases, arith, some_inj,
}
use hfttoolset.Timers.{
  TimerSlot, same_label, start_scope, end_scope, start_label, end_label, end_and_log, behind,
}

-- When the first running timer of the label was started.
unfoldable pub started : List ℕ → List TimerSlot → Option ℕ
started label [] = none
started label (s ∷ ss) =
    let rest = started label ss in
    if s.used && same_label s.label label then some s.timer.begin_time else rest

unfoldable pub has_free : List TimerSlot → Bool
has_free [] = false
has_free (s ∷ ss) = if not s.used then true else has_free ss

same_label_refl : (l : List ℕ) → same_label l l ≡ true
same_label_refl [] = refl
same_label_refl (c ∷ cs) = ground (arith, same_label_refl cs)

same_label_eq : (k l : List ℕ) → same_label k l ≡ true → k ≡ l
same_label_eq [] [] h = refl
same_label_eq [] (d ∷ ds) h = cc
same_label_eq (c ∷ cs) [] h = cc
same_label_eq (c ∷ cs) (d ∷ ds) h =
    let head : c ≡ d = ground (arith, h) in
    let tail = same_label_eq cs ds (ground (arith, h)) in λ i. head i ∷ tail i

pub started-start_label :
    (label : List ℕ) (now : ℕ) (ss : List TimerSlot)
    → started label ss ≡ none
    → has_free ss ≡ true
    → started label (start_label label now ss) ≡ some now
unfolding started has_free start_label start_scope
started-start_label label now [] h f = cc
started-start_label label now (s ∷ ss) h f = elim (Bool-cases s.used) [
  | inr e ↦ ground (arith, e, same_label_refl label)
  | inl e ↦ ground (arith, e, h, f, started-start_label label now ss)
]

pub started-start_other :
    (label other : List ℕ) (now : ℕ) (ss : List TimerSlot)
    → same_label other label ≡ false
    → started label (start_label other now ss) ≡ started label ss
unfolding started start_label start_scope
started-start_other label other now [] n = refl
started-start_other label other now (s ∷ ss) n = elim (Bool-cases s.used) [
  | inr e ↦ ground (arith, e, n)
  | inl e ↦ ground (arith, e, n, started-start_other label other now ss n)
]

-- A slot of another label counts for nothing.
other_slot :
    (label other : List ℕ) (s : TimerSlot)
    → same_label other label ≡ false
    → same_label s.label other ≡ true
    → same_label s.label label ≡ false
other_slot label other s n h = ap (λ l. same_label l label) (same_label_eq s.label other h) ∙ n

abbrev pub KeepsStarted : List ℕ → List TimerSlot → Option (ℤ × List TimerSlot) → Type 0
KeepsStarted label ss none = Unit
KeepsStarted label ss (some (d, ss')) = started label ss' ≡ started label ss

behind-KeepsStarted :
    (label : List ℕ) (s : TimerSlot) (ss : List TimerSlot) (r : Option (ℤ × List TimerSlot))
    → KeepsStarted label ss r
    → KeepsStarted label (s ∷ ss) (behind s r)
unfolding started
behind-KeepsStarted label s ss none h = tt
behind-KeepsStarted label s ss (some (d, ss')) h = rw h refl

pub end_label-KeepsStarted :
    (label other : List ℕ) (now : ℕ) (ss : List TimerSlot)
    → same_label other label ≡ false
    → KeepsStarted label ss (end_label other now ss)
unfolding started end_label end_scope
end_label-KeepsStarted label other now [] n = tt
end_label-KeepsStarted label other now (s ∷ ss) n =
    elim (Bool-cases (s.used && same_label s.label other)) [
      | inl e ↦
          let apart = other_slot label other s n (ground (arith, e)) in rw (e, apart) (ground arith)
      | inr e ↦ rw e (
          behind-KeepsStarted label s ss (end_label other now ss)
            (end_label-KeepsStarted label other now ss n))
    ]

pub end_and_log-KeepsStarted :
    (label other : List ℕ) (now : ℕ) (ss : List TimerSlot)
    → same_label other label ≡ false
    → KeepsStarted label ss (end_and_log other now ss)
unfolding started end_and_log end_scope
end_and_log-KeepsStarted label other now [] n = tt
end_and_log-KeepsStarted label other now (s ∷ ss) n = elim (Bool-cases (same_label s.label other)) [
  | inl e ↦ let apart = other_slot label other s n e in rw (e, apart) (ground arith)
  | inr e ↦ rw e (
      behind-KeepsStarted label s ss (end_and_log other now ss)
        (end_and_log-KeepsStarted label other now ss n))
]

-- The end of the label itself.
pub end_label-started :
    (label : List ℕ) (now t : ℕ) (ss : List TimerSlot)
    → started label ss ≡ some t
    → (ss' : List TimerSlot) × (end_label label now ss ≡ some (pos now -ℤ pos t, ss'))
unfolding started end_label end_scope
end_label-started label now t [] h = cc
end_label-started label now t (s ∷ ss) h = elim (Bool-cases (s.used && same_label s.label label)) [
  | inl e ↦
      let gone = record s { timer = record s.timer { begun = false }; used = false } ∷ ss in
      let same : s.timer.begin_time ≡ t = some_inj (rw e at h) in
      rw e (gone, ap (λ n. some (pos now -ℤ pos n, gone)) same)
  | inr e ↦
      let (ss', r) = end_label-started label now t ss (rw e at h) in rw e (s ∷ ss', ap (behind s) r)
]
