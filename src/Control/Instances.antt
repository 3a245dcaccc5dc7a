-- ===== src/Control/Instances.antt =====
-- cli/src/daemon/control-server.ts: how many daemons listen.
use hisohiso.Prelude.{
  ℕ, suc, ◌≤◌, ◌≡◌, ◌⊎◌, refl, ap, ◌∙◌, true, false, not, none, some, [], ◌∷◌, ◌++◌, ◌==◌, any,
  filter, length, arith, Bool-cases, inl, inr,
}
use hisohiso.Control.Socket.{
  World, finish_start, is_control_socket_live, listen, start_control_server, is_at, crash, close,
  start_step, close_step, crash_step, Reach, start, next,
}

-- Nobody listens, or one process does, at the path.
abbrev Single : World → Type 0
Single w = (w.listening ≡ []) ⊎ ((i : ℕ) × (w.listening ≡ i ∷ []) × (w.path ≡ some i))

start-Single : (w : World) → Single w → Single (start_control_server w).0
unfolding start_control_server finish_start is_control_socket_live listen
start-Single w (inl idle) = elim (Bool-cases (is_control_socket_live w)) [
  | inl e ↦ rw (start_control_server, finish_start, e) (inl idle)
  | inr e ↦
      rw (start_control_server, finish_start, e)
        (inr (w.fresh, ap (λ l. l ++ (w.fresh ∷ [])) idle, refl))
]
start-Single w (inr (i, one, at_path)) =
    let live : is_control_socket_live w ≡ true =
      rw (is_control_socket_live, at_path) (ap (any (λ j. j == i)) one ∙ ground arith) in
    rw (start_control_server, finish_start, live) (inr (i, one, at_path))

crash-Single : (i : ℕ) (w : World) → Single w → Single (crash i w)
unfolding crash
crash-Single i w (inl idle) = inl (ap (filter (λ j. not (j == i))) idle)
crash-Single i w (inr (k, one, at_path)) = elim (Bool-cases (k == i)) [
  | inl e ↦ inl (ap (filter (λ j. not (j == i))) one ∙ rw e refl)
  | inr e ↦ inr (k, ap (filter (λ j. not (j == i))) one ∙ rw e refl, at_path)
]

close-Single : (i : ℕ) (w : World) → Single w → Single (close i w)
unfolding close crash
close-Single i w (inl idle) = elim (Bool-cases (is_at i w.path)) [
  | inl e ↦ rw (close, e) (inl (ap (filter (λ j. not (j == i))) idle))
  | inr e ↦ rw (close, e) (inl idle)
]
close-Single i w (inr (k, one, at_path)) = elim (Bool-cases (k == i)) [
  | inl e ↦
      let same : is_at i w.path ≡ true = ap (is_at i) at_path ∙ e in
      rw (close, same) (inl (ap (filter (λ j. not (j == i))) one ∙ rw e refl))
  | inr e ↦
      let other : is_at i w.path ≡ false = ap (is_at i) at_path ∙ e in
      rw (close, other) (inr (k, one, at_path))
]

Reach-Single : (w : World) {v : World} → w.listening ≡ [] → Reach w v → Single v
Reach-Single w e start = inl e
Reach-Single w e (next {v = v} r start_step) = start-Single v (Reach-Single w e r)
Reach-Single w e (next {v = v} r (close_step i)) = close-Single i v (Reach-Single w e r)
Reach-Single w e (next {v = v} r (crash_step i)) = crash-Single i v (Reach-Single w e r)

-- If every start runs without another process in between, at most one daemon listens, whatever the
-- starts, closes and crashes, and while one does the socket at the path is live, so that every
-- further start is refused.
pub Reach-single :
    (w v : World)
    → w.listening ≡ []
    → Reach w v
    → (length v.listening ≤ 1)
      × ((v.listening ≡ [])
          ⊎ ((is_control_socket_live v ≡ true) × ((start_control_server v).1 ≡ none)))
unfolding start_control_server finish_start is_control_socket_live
Reach-single w v e r = elim (Reach-Single w e r) [
  | inl idle ↦ (omega (arith, ap length idle), inl idle)
  | inr (i, one, at_path) ↦
      let live : is_control_socket_live v ≡ true =
        rw (is_control_socket_live, at_path) (ap (any (λ j. j == i)) one ∙ ground arith) in
      (omega (arith, ap length one), inr (live, rw (start_control_server, finish_start, live) refl))
]

-- Two daemons that both probed the socket and found it dead: if the second goes on after the first
-- has bound the path, both starts succeed and both daemons listen.
pub finish_start-twice :
    (w : World)
    → is_control_socket_live w ≡ false
    → let first = finish_start (is_control_socket_live w) w in
      let second = finish_start (is_control_socket_live w) first.0 in
      (first.1 ≡ some w.fresh)
      × (second.1 ≡ some (suc w.fresh))
      × (second.0.listening ≡ (w.listening ++ (w.fresh ∷ [])) ++ (suc w.fresh ∷ []))
unfolding finish_start listen
finish_start-twice w dead = rw dead (refl, refl, refl)
