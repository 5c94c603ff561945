-- ===== src/Notifications/Matrix.antt =====
-- The preferences that are shown, asked for and updated (src/notifications/notification-prefs.service.ts).
use dupdap_backend.Base.{
  ℕ, is_ok, ◌⊎◌, ◌≡◌, refl, ◌∙◌, Bool, true, false, ◌&&◌, List, [], ◌∷◌, Option, none, some, All,
  arith, if◌then◌else◌, Bool-cases, Option-cases, inl, inr, ==_iff, subst,
}
use dupdap_backend.Notifications.{
  NotificationChannel, NotificationEventType, Prefs, PreferenceItem, UpdateItem, UpdateDto,
  same_channel, same_event, is_in_app, all_channels, item_of, matrix, get_prefs, is_enabled, upsert,
  upsert_each, rejects, update_phone, update_prefs,
}

-- An item says what a sender is told.
abbrev pub IsTrue : (merchant : ℕ) → Prefs → PreferenceItem → Type 0
IsTrue merchant s item = item.enabled ≡ is_enabled merchant item.channel item.event_type s

matrix-IsTrue :
    (merchant : ℕ) (s : Prefs) (channels : List NotificationChannel)
    → All (IsTrue merchant s) (matrix merchant s channels)
unfolding matrix item_of is_enabled
matrix-IsTrue merchant s [] = tt
matrix-IsTrue merchant s (channel ∷ channels) =
    (refl, (refl, (refl, (refl, matrix-IsTrue merchant s channels))))

-- The last setting of a request for a channel and an event.
abbrev pub last_setting :
    NotificationChannel → NotificationEventType → List UpdateItem → Option Bool
last_setting channel event_type [] = none
last_setting channel event_type (item ∷ items) = elim (last_setting channel event_type items) [
  | some enabled ↦ some enabled
  | none ↦
      if same_channel channel item.channel && same_event event_type item.event_type
      then some item.enabled
      else none
]

-- `setting ?? before`
abbrev pub setting_or : Option Bool → Bool → Bool
setting_or none before = before
setting_or (some enabled) before = enabled

same_channel→path : (a b : NotificationChannel) → same_channel a b ≡ true → a ≡ b
same_channel→path a b h = ground arith

upsert-is_enabled :
    (merchant : ℕ) (channel other : NotificationChannel)
    (event_type other_event : NotificationEventType) (value : Bool) (s : Prefs)
    → is_in_app channel ≡ false
    → is_enabled merchant channel event_type (upsert merchant other other_event value s) ≡ (
        if same_channel channel other && same_event event_type other_event
        then value
        else is_enabled merchant channel event_type s)
unfolding is_enabled upsert
upsert-is_enabled merchant channel other event_type other_event value s h =
    elim (Bool-cases (same_channel channel other && same_event event_type other_event)) [
      | inl same ↦ rw h (rw ((==_iff merchant merchant).1 refl) (rw same refl))
      | inr differs ↦ rw h (rw ((==_iff merchant merchant).1 refl) (rw differs refl))
    ]

upsert_each-is_enabled :
    (merchant : ℕ) (channel : NotificationChannel) (event_type : NotificationEventType)
    (items : List UpdateItem) (s : Prefs)
    → is_in_app channel ≡ false
    → is_enabled merchant channel event_type (upsert_each merchant items s)
      ≡ setting_or
          (last_setting channel event_type items)
          (is_enabled merchant channel event_type s)
unfolding upsert_each
upsert_each-is_enabled merchant channel event_type [] s h = refl
upsert_each-is_enabled merchant channel event_type (item ∷ items) s h =
    let value = if is_in_app item.channel then true else item.enabled in
    let s1 = upsert merchant item.channel item.event_type value s in
    let rest = upsert_each-is_enabled merchant channel event_type items s1 h in
    let first =
      upsert-is_enabled merchant channel item.channel event_type item.event_type value s h in
    elim (Option-cases (last_setting channel event_type items)) [
      | inr (later, found) ↦ rw found (rw found at rest)
      | inl no_later ↦ elim (Bool-cases (same_channel channel item.channel)) [
        | inr other ↦ rw no_later (rw other ((rw no_later at rest) ∙ (rw other at first)))
        | inl same ↦
            let plain : is_in_app item.channel ≡ false =
              subst (λ c. is_in_app c ≡ false) (same_channel→path channel item.channel same) h in
            let valued : (if is_in_app item.channel then true else item.enabled) ≡ item.enabled =
              rw plain refl in
            elim (Bool-cases (same_event event_type item.event_type)) [
              | inl its ↦
                  rw no_later
                    (rw same (rw its ((rw no_later at rest) ∙ (rw (same, its) at first) ∙ valued)))
              | inr other ↦
                  rw no_later
                    (rw same (rw other ((rw no_later at rest) ∙ (rw (same, other) at first))))
            ]
      ]
    ]

update_phone-is_enabled :
    (merchant : ℕ) (channel : NotificationChannel) (event_type : NotificationEventType)
    (number : Option ℕ) (s : Prefs)
    → is_enabled merchant channel event_type (update_phone merchant number s)
      ≡ is_enabled merchant channel event_type s
unfolding update_phone is_enabled
update_phone-is_enabled merchant channel event_type none s = refl
update_phone-is_enabled merchant channel event_type (some number) s = refl

-- The matrix that a merchant is shown says of each channel and event what a sender who asks is told.
get_prefs-IsTrue : (merchant : ℕ) (s : Prefs) → All (IsTrue merchant s) (get_prefs merchant s).0
unfolding get_prefs
get_prefs-IsTrue merchant s = matrix-IsTrue merchant s all_channels

-- An update that is refused changes nothing. After one that is accepted, a sender who asks about a
-- channel other than in_app is told the last setting that the request has for the channel and the
-- event, and what it was told before where the request has none.
update_prefs-is_enabled :
    (merchant : ℕ) (channel : NotificationChannel) (event_type : NotificationEventType)
    (dto : UpdateDto) (s : Prefs)
    → is_in_app channel ≡ false
    → let s' = (update_prefs merchant dto s).0 in
      ((s' ≡ s) × (is_ok (update_prefs merchant dto s).1 ≡ false))
      ⊎ (is_enabled merchant channel event_type s'
          ≡ setting_or
              (last_setting channel event_type dto.preferences)
              (is_enabled merchant channel event_type s))
unfolding update_prefs
update_prefs-is_enabled merchant channel event_type dto s h =
    elim (Option-cases (rejects merchant dto s)) [
      | inr (e, refused) ↦ inl (rw (refused, update_prefs) (refl, refl))
      | inl accepted ↦
          let phoned = update_phone merchant dto.phone_number s in
          let updated =
            upsert_each-is_enabled merchant channel event_type dto.preferences phoned h in
          inr (
            rw (accepted, update_prefs)
              (rw (update_phone-is_enabled merchant channel event_type dto.phone_number s) at
                updated))
    ]
