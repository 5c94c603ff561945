-- ===== src/Notifications.antt =====
-- src/notifications/notification-prefs.service.ts with its table (src/notifications/entities). The table is a
-- function of its unique key. A phone number is `none` where it is not given or undefined, and 0 stands
-- for the empty one. The seeding of defaults is left out.
pub mod Matrix
use dupdap_backend.Base.{
  ℕ, Bool, true, false, not, ◌&&◌, ◌==◌, List, [], ◌∷◌, ◌++◌, Option, none, some, Result, ok, err,
  any, map, if◌then◌else◌,
}
use mathlib.Core.Logic.{ite}

pub data NotificationChannel : Type 0 where
  email push in_app sms webhook : NotificationChannel

unfoldable pub NotificationChannel-discrete : Discrete NotificationChannel
NotificationChannel-discrete = hlevel

pub data NotificationEventType : Type 0 where
  payment_confirmed payment_settled settlement_failed payment_failed : NotificationEventType

unfoldable pub NotificationEventType-discrete : Discrete NotificationEventType
NotificationEventType-discrete = hlevel

pub record Prefs : Type 0 where
  pub enabled_row : (merchant : ℕ) → NotificationChannel → NotificationEventType → Option Bool
  pub phone_number : (merchant : ℕ) → Option ℕ

pub record PreferenceItem : Type 0 where
  pub channel : NotificationChannel
  pub event_type : NotificationEventType
  pub enabled : Bool
  pub is_readonly : Bool

pub record UpdateItem : Type 0 where
  pub channel : NotificationChannel
  pub event_type : NotificationEventType
  pub enabled : Bool

pub record UpdateDto : Type 0 where
  pub preferences : List UpdateItem
  pub phone_number : Option ℕ

pub data PrefsError : Type 0 where
  in_app_cannot_be_disabled phone_number_required : PrefsError

abbrev pub same_channel : NotificationChannel → NotificationChannel → Bool
same_channel a b = ite (NotificationChannel-discrete a b) true false

abbrev pub same_event : NotificationEventType → NotificationEventType → Bool
same_event a b = ite (NotificationEventType-discrete a b) true false

abbrev pub is_in_app : NotificationChannel → Bool
is_in_app in_app = true
is_in_app _ = false

abbrev is_sms : NotificationChannel → Bool
is_sms sms = true
is_sms _ = false

abbrev pub default_enabled : NotificationChannel → Bool
default_enabled channel = not (is_sms channel)

abbrev pub all_channels : List NotificationChannel
all_channels = email ∷ push ∷ in_app ∷ sms ∷ webhook ∷ []

abbrev pub all_events : List NotificationEventType
all_events = payment_confirmed ∷ payment_settled ∷ settlement_failed ∷ payment_failed ∷ []

-- `existing?.enabled ?? defaultEnabled(channel)`
abbrev enabled_or_default : NotificationChannel → Option Bool → Bool
enabled_or_default channel none = default_enabled channel
enabled_or_default channel (some enabled) = enabled

-- The item that the matrix has for a channel and an event.
unfoldable pub item_of :
    (merchant : ℕ) → Prefs → NotificationChannel → NotificationEventType → PreferenceItem
item_of merchant s channel event_type = record {
  channel = channel;
  event_type = event_type;
  enabled =
      if is_in_app channel
      then true
      else enabled_or_default channel (s.enabled_row merchant channel event_type);
  is_readonly = is_in_app channel;
}

-- The two loops of `getPrefs`.
unfoldable pub matrix : (merchant : ℕ) → Prefs → List NotificationChannel → List PreferenceItem
unfolding item_of
matrix merchant s [] = []
matrix merchant s (channel ∷ channels) =
    map (item_of merchant s channel) all_events ++ matrix merchant s channels

unfoldable pub get_prefs : (merchant : ℕ) → Prefs → List PreferenceItem × Option ℕ
get_prefs merchant s = (matrix merchant s all_channels, s.phone_number merchant)

unfoldable pub is_enabled :
    (merchant : ℕ) → NotificationChannel → NotificationEventType → Prefs → Bool
is_enabled merchant channel event_type s =
    if is_in_app channel
    then true
    else enabled_or_default channel (s.enabled_row merchant channel event_type)

-- `orUpdate` on the unique key.
unfoldable pub upsert :
    (merchant : ℕ) → NotificationChannel → NotificationEventType → Bool → Prefs → Prefs
upsert merchant channel event_type enabled s = record s {
  enabled_row = λ m c e.
      if m == merchant && same_channel c channel && same_event e event_type
      then some enabled
      else s.enabled_row m c e;
}

unfoldable pub upsert_each : (merchant : ℕ) → List UpdateItem → Prefs → Prefs
upsert_each merchant [] s = s
upsert_each merchant (item ∷ items) s = upsert_each merchant items (
    upsert merchant item.channel item.event_type
      (if is_in_app item.channel then true else item.enabled) s)

abbrev pub disables_in_app : UpdateItem → Bool
disables_in_app item = is_in_app item.channel && not item.enabled

abbrev enables_sms : UpdateItem → Bool
enables_sms item = is_sms item.channel && item.enabled

-- A phone number that is there and not empty.
abbrev has_phone : Option ℕ → Bool
has_phone none = false
has_phone (some number) = not (number == 0)

-- `dto.phoneNumber ?? merchant?.smsPhoneNumber`
abbrev phone_of : (merchant : ℕ) → UpdateDto → Prefs → Option ℕ
phone_of merchant dto s = elim dto.phone_number [
  | none ↦ s.phone_number merchant
  | some number ↦ some number
]

-- What `updatePrefs` has to say against a request.
unfoldable pub rejects : (merchant : ℕ) → UpdateDto → Prefs → Option PrefsError
rejects merchant dto s =
    if any disables_in_app dto.preferences
    then some in_app_cannot_be_disabled
    else if any enables_sms dto.preferences && not (has_phone (phone_of merchant dto s))
    then some phone_number_required
    else none

unfoldable pub update_phone : (merchant : ℕ) → Option ℕ → Prefs → Prefs
update_phone merchant none s = s
update_phone merchant (some number) s = record s {
  phone_number = λ m. if m == merchant then some number else s.phone_number m;
}

unfoldable pub update_prefs :
    (merchant : ℕ) → UpdateDto → Prefs → Prefs × Result PrefsError (List PreferenceItem × Option ℕ)
update_prefs merchant dto s = elim (rejects merchant dto s) [
  | some e ↦ (s, err e)
  | none ↦
      let s' = upsert_each merchant dto.preferences (update_phone merchant dto.phone_number s) in
      (s', ok (get_prefs merchant s'))
]
