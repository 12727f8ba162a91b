-- ===== src/Dissemination/Spacing.antt =====
-- `should_throttle`: which updates of a symbol pass.
use hfttoolset.Base.{
  ℕ, Bool, true, false, List, [], ◌∷◌, if◌then◌else◌, ltb, ◌≤◌, ◌≡◌, ◌≢◌, refl, sym, ap, ◌∙◌, subst,
  inl, inr, Bool-cases, Option, none, some, ite, if_pos, if_neg, arith, ◌==◌,
}
use hfttoolset.Base.Assoc.{find, find-insert}
use hfttoolset.Types.{Symbol, symbol_discrete}
use hfttoolset.Dissemination.{MarketDataEngine, note_time, elapsed, throttle_after, should_throttle}

-- The times of a symbol, of updates that come one after the other.
abbrev pub times_of : Symbol → List (Symbol × ℕ) → List ℕ
times_of s [] = []
times_of s ((z, now) ∷ us) = ite (symbol_discrete z s) (now ∷ times_of s us) (times_of s us)

abbrev if_published : Symbol → Symbol → ℕ → Bool → List ℕ → List ℕ
if_published s z now true rest = rest
if_published s z now false rest = ite (symbol_discrete z s) (now ∷ rest) rest

-- Those that pass.
abbrev pub published_times : Symbol → List (Symbol × ℕ) → MarketDataEngine → List ℕ
published_times s [] e = []
published_times s ((z, now) ∷ us) e =
    if_published s z now (should_throttle z now e).0
      (published_times s us (should_throttle z now e).1)

-- The times that pass for one symbol alone: the first, and then each that is `d` or more after
-- the last that passed.
abbrev pub spaced_out : ℕ → Option ℕ → List ℕ → List ℕ
spaced_out d a [] = []
spaced_out d none (now ∷ xs) = now ∷ spaced_out d (some now) xs
spaced_out d (some last) (now ∷ xs) =
    if ltb (elapsed now last) d
    then spaced_out d (some last) xs
    else now ∷ spaced_out d (some now) xs

-- Each time is `d` or more after the one before it.
abbrev pub IsSpaced : ℕ → Option ℕ → List ℕ → Type 0
IsSpaced d a [] = Unit
IsSpaced d none (now ∷ xs) = IsSpaced d (some now) xs
IsSpaced d (some last) (now ∷ xs) = (d ≤ elapsed now last) × IsSpaced d (some now) xs

spaced_out-IsSpaced : (d : ℕ) (a : Option ℕ) (xs : List ℕ) → IsSpaced d a (spaced_out d a xs)
spaced_out-IsSpaced d a [] = tt
spaced_out-IsSpaced d none (now ∷ xs) = spaced_out-IsSpaced d (some now) xs
spaced_out-IsSpaced d (some last) (now ∷ xs) = elim (Bool-cases (ltb (elapsed now last) d)) [
  | inl h ↦ rw h (spaced_out-IsSpaced d (some last) xs)
  | inr h ↦ rw h (ground (arith, h), spaced_out-IsSpaced d (some now) xs)
]

find-note_time :
    (s z : Symbol) (now : ℕ) (e : MarketDataEngine)
    → find symbol_discrete s (note_time z now e).last_publish_time
      ≡ ite (symbol_discrete z s) (some now) (find symbol_discrete s e.last_publish_time)
unfolding note_time
find-note_time s z now e = find-insert symbol_discrete z s now e.last_publish_time

-- What is known of the updates to come.
abbrev Foretells : ℕ → Symbol → List (Symbol × ℕ) → Type 0
Foretells d s us =
    (e : MarketDataEngine) (a : Option ℕ)
    → e.throttle_ns ≡ d
    → find symbol_discrete s e.last_publish_time ≡ a
    → published_times s us e ≡ spaced_out d a (times_of s us)

same-Foretells :
    (d : ℕ) (s : Symbol) (now : ℕ) (us : List (Symbol × ℕ)) (a : Option ℕ) (e : MarketDataEngine)
    → Foretells d s us
    → e.throttle_ns ≡ d
    → find symbol_discrete s e.last_publish_time ≡ a
    → let r = throttle_after a s now e in
      if_published s s now r.0 (published_times s us r.1) ≡ spaced_out d a (now ∷ times_of s us)
unfolding throttle_after note_time
same-Foretells d s now us none e k h f =
    if_pos (symbol_discrete s s) refl _ _
    ∙ ap (λ xs. now ∷ xs)
        (k (note_time s now e) (some now) h
          (find-note_time s s now e ∙ if_pos (symbol_discrete s s) refl _ _))
same-Foretells d s now us (some last) e k h f = elim (Bool-cases (ltb (elapsed now last) d)) [
  | inl g ↦ rw (ap (ltb (elapsed now last)) h ∙ g, g) (k e (some last) h f)
  | inr g ↦
      rw (ap (ltb (elapsed now last)) h ∙ g, g)
        (if_pos (symbol_discrete s s) refl _ _
          ∙ ap (λ xs. now ∷ xs)
              (k (note_time s now e) (some now) h
                (find-note_time s s now e ∙ if_pos (symbol_discrete s s) refl _ _)))
]

other-Foretells :
    (d : ℕ) (s z : Symbol) (now : ℕ) (us : List (Symbol × ℕ)) (a b : Option ℕ)
    (e : MarketDataEngine)
    → z ≢ s
    → Foretells d s us
    → e.throttle_ns ≡ d
    → find symbol_discrete s e.last_publish_time ≡ a
    → let r = throttle_after b z now e in
      if_published s z now r.0 (published_times s us r.1) ≡ spaced_out d a (times_of s us)
unfolding throttle_after note_time
other-Foretells d s z now us a none e n k h f =
    if_neg (symbol_discrete z s) n _ _
    ∙ k (note_time z now e) a h (find-note_time s z now e ∙ if_neg (symbol_discrete z s) n _ _ ∙ f)
other-Foretells d s z now us a (some last) e n k h f =
    elim (Bool-cases (ltb (elapsed now last) e.throttle_ns)) [
      | inl g ↦ rw g (k e a h f)
      | inr g ↦ rw g (
          if_neg (symbol_discrete z s) n _ _
          ∙ k (note_time z now e) a h
              (find-note_time s z now e ∙ if_neg (symbol_discrete z s) n _ _ ∙ f))
    ]

passes-Foretells :
    (d : ℕ) (s : Symbol) (us : List (Symbol × ℕ)) → (d == 0) ≡ false → Foretells d s us
unfolding should_throttle
passes-Foretells d s [] nz e a h f = refl
passes-Foretells d s ((z, now) ∷ us) nz e a h f =
    let k = passes-Foretells d s us nz in
    let throttling : (e.throttle_ns == 0) ≡ false = ap (λ x. x == 0) h ∙ nz in
    elim (symbol_discrete z s) [
      | yes p ↦ rw throttling (
          subst
            (λ x.
              let r = throttle_after (find symbol_discrete x e.last_publish_time) x now e in
              if_published s x now r.0 (published_times s us r.1)
              ≡ spaced_out d a (ite (symbol_discrete z s) (now ∷ times_of s us) (times_of s us)))
            (sym p)
            (ap
                (λ b.
                  let r = throttle_after b s now e in
                  if_published s s now r.0 (published_times s us r.1))
                f
              ∙ same-Foretells d s now us a e k h f
              ∙ ap (spaced_out d a) (sym (if_pos (symbol_discrete z s) p _ _))))
      | no n ↦ rw throttling (
          other-Foretells d s z now us a (find symbol_discrete z e.last_publish_time) e n k h f
          ∙ ap (spaced_out d a) (sym (if_neg (symbol_discrete z s) n _ _)))
    ]

none_below : (n : ℕ) → ltb n 0 ≡ false
none_below n = ground arith

unspaced : (a : Option ℕ) (xs : List ℕ) → spaced_out 0 a xs ≡ xs
unspaced a [] = refl
unspaced none (now ∷ xs) = ap (λ l. now ∷ l) (unspaced (some now) xs)
unspaced (some last) (now ∷ xs) =
    rw (none_below (elapsed now last)) (ap (λ l. now ∷ l) (unspaced (some now) xs))

published_times-unthrottled :
    (s : Symbol) (us : List (Symbol × ℕ)) (e : MarketDataEngine)
    → (e.throttle_ns == 0) ≡ true
    → published_times s us e ≡ times_of s us
unfolding should_throttle
published_times-unthrottled s [] e h = refl
published_times-unthrottled s ((z, now) ∷ us) e h =
    rw h (ap (λ l. ite (symbol_discrete z s) (now ∷ l) l) (published_times-unthrottled s us e h))

-- Of any updates, those of a symbol that pass are those that would pass if there were no other
-- symbol: the first, and then each that comes the throttle interval or more, modulo 2^64, after
-- the last that passed. So no two of a symbol that pass in succession are closer.
pub published_times-spaced_out :
    (s : Symbol) (us : List (Symbol × ℕ)) (e : MarketDataEngine)
    → let last = find symbol_discrete s e.last_publish_time in
      (published_times s us e ≡ spaced_out e.throttle_ns last (times_of s us))
      × IsSpaced e.throttle_ns last (published_times s us e)
published_times-spaced_out s us e =
    let last = find symbol_discrete s e.last_publish_time in
    let same : published_times s us e ≡ spaced_out e.throttle_ns last (times_of s us) =
      elim (Bool-cases (e.throttle_ns == 0)) [
        | inl h ↦
            published_times-unthrottled s us e h
            ∙ sym (unspaced last (times_of s us))
            ∙ ap (λ d. spaced_out d last (times_of s us)) (ground (arith, h))
        | inr h ↦ passes-Foretells e.throttle_ns s us h e last refl refl
      ] in
    (
      same,
      subst (IsSpaced e.throttle_ns last) (sym same)
          (spaced_out-IsSpaced e.throttle_ns last (times_of s us)),
    )
