-- ===== src/Timers/Cycle.antt =====
-- A label that is started and ended, with other labels in between.
use hfttoolset.Base.{
  ℕ, ℤ, pos, ◌-ℤ◌, true, false, List, [], ◌∷◌, Option, none, some, ◌≡◌, sym, ap, ◌∙◌, inl, inr,
  Option-cases, All, some_inj,
}
use hfttoolset.Timers.{TimerSlot, same_label, start_label, end_label, end_and_log}
use hfttoolset.Timers.Started.{
  started, has_free, KeepsStarted, started-start_label, started-start_other, end_label-KeepsStarted,
  end_and_log-KeepsStarted, end_label-started,
}

-- What the thread does with its timers in between; `none`: the end of a function without a result
-- is reached.
pub data Operation : Type 0 where
  starts ends logs : List ℕ → ℕ → Operation

abbrev pub label_of : Operation → List ℕ
label_of (starts l now) = l
label_of (ends l now) = l
label_of (logs l now) = l

abbrev slots_after : Option (ℤ × List TimerSlot) → Option (List TimerSlot)
slots_after none = none
slots_after (some (d, ss)) = some ss

abbrev or_same : List TimerSlot → Option (ℤ × List TimerSlot) → Option (List TimerSlot)
or_same ss none = some ss
or_same ss (some (d, ss')) = some ss'

unfoldable pub operate : Operation → List TimerSlot → Option (List TimerSlot)
operate (starts l now) ss = some (start_label l now ss)
operate (ends l now) ss = slots_after (end_label l now ss)
operate (logs l now) ss = or_same ss (end_and_log l now ss)

abbrev bind :
    (List TimerSlot → Option (List TimerSlot)) → Option (List TimerSlot) → Option (List TimerSlot)
bind f none = none
bind f (some ss) = f ss

unfoldable pub operate_all : List Operation → List TimerSlot → Option (List TimerSlot)
operate_all [] ss = some ss
operate_all (o ∷ os) ss = bind (operate_all os) (operate o ss)

slots_after-kept :
    (label : List ℕ) (ss ss' : List TimerSlot) (r : Option (ℤ × List TimerSlot))
    → KeepsStarted label ss r
    → slots_after r ≡ some ss'
    → started label ss' ≡ started label ss
slots_after-kept label ss ss' none k h = cc
slots_after-kept label ss ss' (some (d, s)) k h = ap (started label) (sym (some_inj h)) ∙ k

or_same-kept :
    (label : List ℕ) (ss ss' : List TimerSlot) (r : Option (ℤ × List TimerSlot))
    → KeepsStarted label ss r
    → or_same ss r ≡ some ss'
    → started label ss' ≡ started label ss
or_same-kept label ss ss' none k h = ap (started label) (sym (some_inj h))
or_same-kept label ss ss' (some (d, s)) k h = ap (started label) (sym (some_inj h)) ∙ k

abbrev pub IsOther : List ℕ → Operation → Type 0
IsOther label o = same_label (label_of o) label ≡ false

operate-kept :
    (label : List ℕ) (o : Operation) (ss ss' : List TimerSlot)
    → IsOther label o
    → operate o ss ≡ some ss'
    → started label ss' ≡ started label ss
unfolding operate
operate-kept label (starts l now) ss ss' n h =
    ap (started label) (sym (some_inj h)) ∙ started-start_other label l now ss n
operate-kept label (ends l now) ss ss' n h =
    slots_after-kept label ss ss' _ (end_label-KeepsStarted label l now ss n) h
operate-kept label (logs l now) ss ss' n h =
    or_same-kept label ss ss' _ (end_and_log-KeepsStarted label l now ss n) h

operate_all-kept :
    (label : List ℕ) (os : List Operation) (ss ss' : List TimerSlot)
    → All (IsOther label) os
    → operate_all os ss ≡ some ss'
    → started label ss' ≡ started label ss
unfolding operate_all
operate_all-kept label [] ss ss' n h = ap (started label) (sym (some_inj h))
operate_all-kept label (o ∷ os) ss ss' n h = elim (Option-cases (operate o ss)) [
  | inl e ↦ cc (ap (bind (operate_all os)) (sym e) ∙ h)
  | inr (s, e) ↦
      operate_all-kept label os s ss' n.1 (ap (bind (operate_all os)) (sym e) ∙ h)
      ∙ operate-kept label o ss s n.0 e
]

-- A label that no running timer of the thread has is started, with a slot free, and ended after any
-- starts, ends and logs of other labels that reach no undefined behaviour: the end finds it and
-- returns the time between its own start and its own end.
pub end_label-start_label :
    (label : List ℕ) (t0 t1 : ℕ) (os : List Operation) (ss ss' : List TimerSlot)
    → started label ss ≡ none
    → has_free ss ≡ true
    → All (IsOther label) os
    → operate_all os (start_label label t0 ss) ≡ some ss'
    → (ss'' : List TimerSlot) × (end_label label t1 ss' ≡ some (pos t1 -ℤ pos t0, ss''))
end_label-start_label label t0 t1 os ss ss' h f n e = end_label-started label t1 t0 ss' (
    operate_all-kept label os (start_label label t0 ss) ss' n e
    ∙ started-start_label label t0 ss h f)
