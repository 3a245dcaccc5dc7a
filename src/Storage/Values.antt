-- ===== src/Storage/Values.antt =====
-- app/src/lib/storage.ts: reads of the items after writes.
use hisohiso.Prelude.{
  ℕ, ◌+◌, ◌≡◌, refl, ap, ◌∙◌, Bool, true, false, ◌&&◌, Option, none, some, [], ◌∷◌, leb,
  if◌then◌else◌, Bool-cases, inl, inr,
}
use hisohiso.Text.{Text, text_eq, trim, show}
use hisohiso.Text.Laws.{text_eq_refl, show-IsWord, IsWord}
use hisohiso.Message.Envelope.{is_empty}
use hisohiso.Hints.Local.{Local, get_item, remove_item, set_item}
use hisohiso.Hints.Rooms.{text_eq-append, get_item-remove_item, get_item-set_item}
use hisohiso.Storage.Items.{
  Items, Slot, token, subscriber_jwt, handle, room_password, expected_knock, last_knock,
  setup_dismissed, created_by_me, prefix_of, slot_key, get_value, set_value, clear_value,
  set_knock_message, nav_intent_key, mark_in_app_navigation, clear_in_app_navigation,
  is_in_app_navigation_pending,
}

abbrev pub slot_eq : Slot → Slot → Bool
slot_eq token token = true
slot_eq subscriber_jwt subscriber_jwt = true
slot_eq handle handle = true
slot_eq room_password room_password = true
slot_eq expected_knock expected_knock = true
slot_eq last_knock last_knock = true
slot_eq setup_dismissed setup_dismissed = true
slot_eq created_by_me created_by_me = true
slot_eq s t = false

-- The keys of two rooms' values are the same only for one slot and one room: no prefix starts
-- another.
slot_key_lem :
    (s t : Slot) (h j : Text) → text_eq (slot_key s h) (slot_key t j) ≡ (slot_eq s t && text_eq h j)
unfolding text_eq
slot_key_lem token token h j = text_eq-append (prefix_of token) h j
slot_key_lem token subscriber_jwt h j = refl
slot_key_lem token handle h j = refl
slot_key_lem token room_password h j = refl
slot_key_lem token expected_knock h j = refl
slot_key_lem token last_knock h j = refl
slot_key_lem token setup_dismissed h j = refl
slot_key_lem token created_by_me h j = refl
slot_key_lem subscriber_jwt token h j = refl
slot_key_lem subscriber_jwt subscriber_jwt h j = text_eq-append (prefix_of subscriber_jwt) h j
slot_key_lem subscriber_jwt handle h j = refl
slot_key_lem subscriber_jwt room_password h j = refl
slot_key_lem subscriber_jwt expected_knock h j = refl
slot_key_lem subscriber_jwt last_knock h j = refl
slot_key_lem subscriber_jwt setup_dismissed h j = refl
slot_key_lem subscriber_jwt created_by_me h j = refl
slot_key_lem handle token h j = refl
slot_key_lem handle subscriber_jwt h j = refl
slot_key_lem handle handle h j = text_eq-append (prefix_of handle) h j
slot_key_lem handle room_password h j = refl
slot_key_lem handle expected_knock h j = refl
slot_key_lem handle last_knock h j = refl
slot_key_lem handle setup_dismissed h j = refl
slot_key_lem handle created_by_me h j = refl
slot_key_lem room_password token h j = refl
slot_key_lem room_password subscriber_jwt h j = refl
slot_key_lem room_password handle h j = refl
slot_key_lem room_password room_password h j = text_eq-append (prefix_of room_password) h j
slot_key_lem room_password expected_knock h j = refl
slot_key_lem room_password last_knock h j = refl
slot_key_lem room_password setup_dismissed h j = refl
slot_key_lem room_password created_by_me h j = refl
slot_key_lem expected_knock token h j = refl
slot_key_lem expected_knock subscriber_jwt h j = refl
slot_key_lem expected_knock handle h j = refl
slot_key_lem expected_knock room_password h j = refl
slot_key_lem expected_knock expected_knock h j = text_eq-append (prefix_of expected_knock) h j
slot_key_lem expected_knock last_knock h j = refl
slot_key_lem expected_knock setup_dismissed h j = refl
slot_key_lem expected_knock created_by_me h j = refl
slot_key_lem last_knock token h j = refl
slot_key_lem last_knock subscriber_jwt h j = refl
slot_key_lem last_knock handle h j = refl
slot_key_lem last_knock room_password h j = refl
slot_key_lem last_knock expected_knock h j = refl
slot_key_lem last_knock last_knock h j = text_eq-append (prefix_of last_knock) h j
slot_key_lem last_knock setup_dismissed h j = refl
slot_key_lem last_knock created_by_me h j = refl
slot_key_lem setup_dismissed token h j = refl
slot_key_lem setup_dismissed subscriber_jwt h j = refl
slot_key_lem setup_dismissed handle h j = refl
slot_key_lem setup_dismissed room_password h j = refl
slot_key_lem setup_dismissed expected_knock h j = refl
slot_key_lem setup_dismissed last_knock h j = refl
slot_key_lem setup_dismissed setup_dismissed h j = text_eq-append (prefix_of setup_dismissed) h j
slot_key_lem setup_dismissed created_by_me h j = refl
slot_key_lem created_by_me token h j = refl
slot_key_lem created_by_me subscriber_jwt h j = refl
slot_key_lem created_by_me handle h j = refl
slot_key_lem created_by_me room_password h j = refl
slot_key_lem created_by_me expected_knock h j = refl
slot_key_lem created_by_me last_knock h j = refl
slot_key_lem created_by_me setup_dismissed h j = refl
slot_key_lem created_by_me created_by_me h j = text_eq-append (prefix_of created_by_me) h j

get-set_value :
    (s t : Slot) (h j v : Text) (es : Items)
    → get_value t j (set_value s h v es)
      ≡ (if slot_eq s t && text_eq h j then some v else get_value t j es)
unfolding get_value set_value
get-set_value s t h j v es =
    get_item-set_item (slot_key t j) (slot_key s h) v es
    ∙ ap (λ b. if b then some v else get_item (slot_key t j) es) (slot_key_lem s t h j)

get-clear_value :
    (s t : Slot) (h j : Text) (es : Items)
    → get_value t j (clear_value s h es)
      ≡ (if slot_eq s t && text_eq h j then none else get_value t j es)
unfolding get_value clear_value
get-clear_value s t h j es =
    get_item-remove_item (slot_key t j) (slot_key s h) es
    ∙ ap (λ b. if b then none else get_item (slot_key t j) es) (slot_key_lem s t h j)

abbrev pub trimmed_or_none : Text → Option Text
trimmed_or_none t = if is_empty (trim t) then none else some (trim t)

-- For all slots and rooms: a value reads back as it was set, a cleared one is absent, a knock message
-- reads back trimmed and a blank one is absent, and none of these writes changes what any other slot,
-- or the same slot of any other room, reads.
pub get-set-clear_value :
    (s t : Slot) (h j v : Text) (es : Items)
    → (get_value t j (set_value s h v es)
        ≡ (if slot_eq s t && text_eq h j then some v else get_value t j es))
      × (get_value t j (clear_value s h es)
          ≡ (if slot_eq s t && text_eq h j then none else get_value t j es))
      × (get_value t j (set_knock_message s h v es)
          ≡ (if slot_eq s t && text_eq h j then trimmed_or_none v else get_value t j es))
unfolding set_knock_message
get-set-clear_value s t h j v es = (
  get-set_value s t h j v es,
  get-clear_value s t h j es,
  elim (Bool-cases (is_empty (trim v))) [
    | inl e ↦ rw e (get-clear_value s t h j es)
    | inr e ↦ rw e (get-set_value s t h j (trim v) es)
  ],
)

word_filled : (t : Text) → IsWord t → is_empty t ≡ false
word_filled [] w = absurd w
word_filled (c ∷ cs) w = refl

abbrev at_hand : Items → Local
at_hand es = record { available = true; entries = es }

pending-absent :
    (number : Text → Option ℕ) (now : ℕ) (es : Items)
    → get_item nav_intent_key es ≡ none
    → is_in_app_navigation_pending number 5000 now (at_hand es) ≡ false
unfolding is_in_app_navigation_pending
pending-absent number now es e = rw (is_in_app_navigation_pending, e) refl

pending-present :
    (number : Text → Option ℕ) (now : ℕ) (raw : Text) (marked : ℕ) (es : Items)
    → get_item nav_intent_key es ≡ some raw
    → is_empty raw ≡ false
    → number raw ≡ some marked
    → is_in_app_navigation_pending number 5000 now (at_hand es) ≡ leb now (marked + 5000)
unfolding is_in_app_navigation_pending
pending-present number now raw marked es e filled h =
    rw (is_in_app_navigation_pending, e, filled, h) refl

-- A navigation of the application's own that is marked at one time counts as pending until five
-- seconds later and no longer, and not at all once it is cleared; `number` reads that time back.
pub is_in_app_navigation_pending-mark :
    (number : Text → Option ℕ) (marked now : ℕ) (es : Items)
    → number (show marked) ≡ some marked
    → (is_in_app_navigation_pending number 5000 now
          (mark_in_app_navigation marked (record { available = true; entries = es }))
        ≡ leb now (marked + 5000))
      × (is_in_app_navigation_pending number 5000 now (
            clear_in_app_navigation
              (mark_in_app_navigation marked (record { available = true; entries = es })))
          ≡ false)
unfolding mark_in_app_navigation clear_in_app_navigation
is_in_app_navigation_pending-mark number marked now es h =
    let stored = set_item nav_intent_key (show marked) es in
    (
      pending-present number now (show marked) marked stored
          (get_item-set_item nav_intent_key nav_intent_key (show marked) es
            ∙ ap (λ b. if b then some (show marked) else get_item nav_intent_key es)
                (text_eq_refl nav_intent_key))
          (word_filled (show marked) (show-IsWord marked)) h,
      pending-absent number now (remove_item nav_intent_key stored) (
          get_item-remove_item nav_intent_key nav_intent_key stored
          ∙ ap (λ b. if b then none else get_item nav_intent_key stored)
              (text_eq_refl nav_intent_key)),
    )
