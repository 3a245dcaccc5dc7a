-- ===== src/Lock.antt =====
-- app/src/lib/app-lock.ts: when the application locks itself. The listeners are the sequence of the
-- page events that they are called for.
use hisohiso.Prelude.{
  Bool, true, false, not, ◌&&◌, ◌||◌, List, [], ◌∷◌, any, if◌then◌else◌, ◌≡◌, refl,
}

-- `PageLifecycleSnapshot`; `visibilityState` is 'hidden' or not.
pub record PageLifecycleSnapshot : Type 0 where
  pub is_hidden : Bool
  pub is_armed : Bool
  pub is_already_locked : Bool
  pub is_in_app_navigation : Bool

-- `shouldLockForPageLifecycle`
unfoldable pub should_lock_for_page_lifecycle : PageLifecycleSnapshot → Bool
should_lock_for_page_lifecycle p =
    p.is_hidden && p.is_armed && not p.is_already_locked && not p.is_in_app_navigation

-- `shouldStartLocked`
unfoldable pub should_start_locked : Bool → Bool → Bool
should_start_locked is_armed is_unlocked_for_session = is_armed && not is_unlocked_for_session

-- A `visibilitychange` or `pagehide`: whether the page is hidden then, and by a navigation of the
-- application's own.
pub record PageEvent : Type 0 where
  pub hidden : Bool
  pub navigating : Bool

-- `maybeLock`, on whether the application is locked.
unfoldable pub maybe_lock : Bool → PageEvent → Bool → Bool
unfolding should_lock_for_page_lifecycle
maybe_lock armed e locked =
    if should_lock_for_page_lifecycle (record {
      is_hidden = e.hidden;
      is_armed = armed;
      is_already_locked = locked;
      is_in_app_navigation = e.navigating;
    })
    then true
    else locked

-- A life of the page: its start, then its events.
unfoldable pub locked_after : Bool → List PageEvent → Bool → Bool
unfolding maybe_lock
locked_after armed [] locked = locked
locked_after armed (e ∷ es) locked = locked_after armed es (maybe_lock armed e locked)

abbrev pub goes_to_background : PageEvent → Bool
goes_to_background e = e.hidden && not e.navigating

maybe_lock_lem :
    (armed : Bool) (e : PageEvent) (locked : Bool)
    → maybe_lock armed e locked ≡ (locked || (armed && goes_to_background e))
unfolding maybe_lock
maybe_lock_lem armed e locked = table e.hidden armed locked e.navigating
  where
    table :
        (h a l n : Bool)
        → (if h && a && not l && not n then true else l) ≡ (l || (a && (h && not n)))
    table false false false n = refl
    table false false true n = refl
    table false true false n = refl
    table false true true n = refl
    table true false false n = refl
    table true false true n = refl
    table true true true n = refl
    table true true false true = refl
    table true true false false = refl

locked_after_lem :
    (armed : Bool) (es : List PageEvent) (locked : Bool)
    → locked_after armed es locked ≡ (locked || (armed && any goes_to_background es))
unfolding locked_after
locked_after_lem armed [] locked = table locked armed
  where
    table : (l a : Bool) → l ≡ (l || (a && false))
    table true a = refl
    table false true = refl
    table false false = refl
locked_after_lem armed (e ∷ es) locked =
    rw (locked_after_lem armed es (maybe_lock armed e locked)) (
      rw (maybe_lock_lem armed e locked)
        (table locked armed (goes_to_background e) (any goes_to_background es)))
  where
    table : (l a g r : Bool) → ((l || (a && g)) || (a && r)) ≡ (l || (a && (g || r)))
    table true a g r = refl
    table false true g r = refl
    table false false g r = refl

-- From its start, an application with no unlocking in between is locked exactly when the lock is armed
-- and the session was not unlocked or the page went to the background other than by a navigation.
pub locked_after-should_start_locked :
    (armed unlocked : Bool) (es : List PageEvent)
    → locked_after armed es (should_start_locked armed unlocked)
      ≡ (armed && (not unlocked || any goes_to_background es))
unfolding should_start_locked
locked_after-should_start_locked armed unlocked es =
    rw (locked_after_lem armed es (armed && not unlocked))
      (table armed unlocked (any goes_to_background es))
  where
    table : (a u r : Bool) → ((a && not u) || (a && r)) ≡ (a && (not u || r))
    table true u r = refl
    table false u r = refl
