-- ===== src/Events/Refresh.antt =====
-- cli/src/lib/sse-client.ts: the refreshes of a token in every sequence of errors, answers and closes.
use hisohiso.Prelude.{
  ℕ, suc, ◌+◌, ◌-◌, ◌≤◌, ◌≡◌, refl, Bool, true, false, Option, none, some, List, [], ◌∷◌,
  if◌then◌else◌, arith, Bool-cases, inl, inr,
}
use hisohiso.Text.{Text}
use hisohiso.Message.Envelope.{is_empty}
use hisohiso.Events.Subscription.{
  Subscription, subscribe_to_room, on_error, with_token, refreshed, close, error_step, answer_step,
  close_step, Reach, start, next, should_refresh, call_refresh,
}

-- Each time is at least thirty seconds after the one before it.
abbrev pub Spaced : List ℕ → Type 0
Spaced [] = Unit
Spaced (t ∷ []) = Unit
Spaced (t ∷ u ∷ ts) = (u + 30000 ≤ t) × Spaced (u ∷ ts)

abbrev latest : List ℕ → ℕ
latest [] = 0
latest (t ∷ ts) = t

abbrev one_if : Bool → ℕ
one_if b = if b then 1 else 0

record Inv (s : Subscription) : Type 0 where
  single : s.in_flight ≡ one_if s.refreshing
  last : latest s.refreshes ≡ s.last_refresh_at
  spaced : Spaced s.refreshes

Spaced-cons : (t : ℕ) (ts : List ℕ) → latest ts + 30000 ≤ t → Spaced ts → Spaced (t ∷ ts)
Spaced-cons t [] h s = tt
Spaced-cons t (u ∷ ts) h s = (h, s)

call_refresh-Inv :
    (now : ℕ) (code : Option ℕ) (can_refresh : Bool) (s : Subscription)
    → should_refresh now code can_refresh s ≡ true
    → Inv s
    → Inv (call_refresh now s)
unfolding should_refresh
call_refresh-Inv now code can_refresh s h inv =
    let late : s.last_refresh_at + 30000 ≤ now = ground (arith, h) in
    let free : s.refreshing ≡ false = ground (arith, h) in
    record {
      single = ground (arith, inv.single, free);
      last = refl;
      spaced = Spaced-cons now s.refreshes (omega (arith, inv.last, late)) inv.spaced;
    }

on_error-Inv :
    (now : ℕ) (code : Option ℕ) (can_refresh is_dead : Bool) (s : Subscription)
    → Inv s
    → Inv (on_error now code can_refresh is_dead s)
unfolding on_error
on_error-Inv now code can_refresh is_dead s inv =
    elim (Bool-cases (should_refresh now code can_refresh s)) [
      | inl e ↦ rw (on_error, e) (call_refresh-Inv now code can_refresh s e inv)
      | inr e ↦ rw (on_error, e) (either is_dead)
    ]
  where
    either : (b : Bool) → Inv (if b then record s { errors = suc s.errors } else s)
    either true = record { single = inv.single; last = inv.last; spaced = inv.spaced }
    either false = inv

with_token-Inv : (o : Option Text) (s : Subscription) → Inv s → Inv (with_token o s)
with_token-Inv none s inv = inv
with_token-Inv (some jwt) s inv = elim (Bool-cases s.closed) [
  | inl e ↦ simp e inv
  | inr e ↦ simp e (elim (Bool-cases (is_empty jwt)) [
    | inl blank ↦ simp blank inv
    | inr filled ↦
        simp filled (record { single = inv.single; last = inv.last; spaced = inv.spaced })
  ])
]

refreshed-Inv :
    (o : Option Text) (n : ℕ) (s : Subscription) → s.in_flight ≡ suc n → Inv s → Inv (refreshed o s)
unfolding refreshed
refreshed-Inv o n s e inv =
    with_token-Inv o (record s { refreshing = false; in_flight = s.in_flight - 1 })
      (record { single = ground (arith, inv.single, e); last = inv.last; spaced = inv.spaced })

Reach-Inv : (jwt : Text) {s : Subscription} → Reach (subscribe_to_room jwt) s → Inv s
Reach-Inv jwt start = record { single = refl; last = refl; spaced = tt }
Reach-Inv jwt (next {t = t} r (error_step now code can_refresh is_dead)) =
    on_error-Inv now code can_refresh is_dead t (Reach-Inv jwt r)
Reach-Inv jwt (next {t = t} r (answer_step o n e)) = refreshed-Inv o n t e (Reach-Inv jwt r)
Reach-Inv jwt (next r close_step) =
    let inv = Reach-Inv jwt r in
    record { single = inv.single; last = inv.last; spaced = inv.spaced }

abbrev Quiet : Subscription → Subscription → Type 0
Quiet s t = (t.closed ≡ true) × (t.sources ≡ s.sources) × (t.refreshes ≡ s.refreshes)

on_error-Quiet :
    (now : ℕ) (code : Option ℕ) (can_refresh is_dead : Bool) (s t : Subscription)
    → Quiet s t
    → Quiet s (on_error now code can_refresh is_dead t)
unfolding on_error should_refresh
on_error-Quiet now code can_refresh is_dead s t h =
    let never : should_refresh now code can_refresh t ≡ false = ground (arith, h.0) in
    rw (on_error, never) (either is_dead)
  where
    either : (b : Bool) → Quiet s (if b then record t { errors = suc t.errors } else t)
    either true = h
    either false = h

refreshed-Quiet : (o : Option Text) (s t : Subscription) → Quiet s t → Quiet s (refreshed o t)
unfolding refreshed
refreshed-Quiet none s t h = h
refreshed-Quiet (some jwt) s t h =
    (ground (arith, h.0), ground (arith, h.0, h.1), ground (arith, h.0, h.2))

Reach-Quiet : {s t : Subscription} → s.closed ≡ true → Reach s t → Quiet s t
Reach-Quiet e start = (e, refl, refl)
Reach-Quiet {s} e (next {t = t} r (error_step now code can_refresh is_dead)) =
    on_error-Quiet now code can_refresh is_dead s t (Reach-Quiet e r)
Reach-Quiet {s} e (next {t = t} r (answer_step o n f)) = refreshed-Quiet o s t (Reach-Quiet e r)
Reach-Quiet e (next r close_step) = let h = Reach-Quiet e r in (refl, h.1, h.2)

-- Whatever the errors, the answers and the closes, at most one refresh of the token is in flight, and
-- any refresh begins at least thirty seconds after the one before it.
pub Reach-Spaced :
    (jwt : Text) (s : Subscription)
    → Reach (subscribe_to_room jwt) s
    → (s.in_flight ≤ 1) × Spaced s.refreshes
Reach-Spaced jwt s r = let inv = Reach-Inv jwt r in (ground (arith, inv.single), inv.spaced)

-- Once a subscription is closed, no event source is made and no refresh begins any more, also where a
-- refresh was in flight at the close.
pub Reach-closed :
    (s t : Subscription) → Reach (close s) t → (t.sources ≡ s.sources) × (t.refreshes ≡ s.refreshes)
Reach-closed s t r = let h = Reach-Quiet refl r in (h.1, h.2)
